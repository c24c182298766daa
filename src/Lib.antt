-- ===== src/Lib.antt =====
-- webtransportd: a verification library for the daemon that pipes WebTransport sessions to child
-- programs. A browser opens a session; the daemon spawns a child for it, writes what the peer sends
-- to the child's stdin as frames, and sends the frames that the child writes to stdout back to the
-- peer, as stream bytes or datagrams by the flag of each frame.
--
-- The parts and where they are modelled:
--   Common         lists, options, C integers as far as their sign counts, buffers with faults.
--   Frame          core/frame.c. A buffer is a list of bytes, a pointer into it an offset, and an
--                  access outside a buffer is the answer `none`. Frame.Varint and Frame.Encode say
--                  what is on the wire, Frame.Decode what the decoder answers on any input,
--                  Frame.RoundTrip relates the two.
--   WorkQueue      core/work_queue.c: a linked list on a heap of nodes. A region under the mutex is
--                  one step. WorkQueue.Chain is the abstract queue and the refinement.
--   Session        core/session.c over the two ports of ports/, which are records of functions on a
--                  state `W`. Session.Deliver: peer to child; Session.Pump and Session.Order: child
--                  to peer; Session.Run: any history of calls against ports that answer at will;
--                  Session.Interleaving: the steps of the reader thread and of the network thread,
--                  their order (Session.Interleaving.Order) and the network thread's way to the end
--                  of a pump (Session.Interleaving.Progress).
--   ChildOutput    the reader thread of adapters/child_output.c. The kernel's answers to read(2) are
--                  a list. ChildOutput.Loop and ChildOutput.Delivery follow the thread to its end;
--                  ChildOutput.Control starts and stops it.
--   ChildProcess   the POSIX half of adapters/child_process.c as sequences of system calls, whose
--                  answers are arguments. ChildProcess.Descriptors accounts for what they open.
--                  ChildProcess.Windows is the Win32 half, ChildProcess.Windows.Handles its account.
--   Env            adapters/env.c, with getenv and the answers to requests for memory as arguments;
--                  Env.Build.
--   Cmdline        adapters/cmdline.c: wtd_split_cmdline with Cmdline.Split, wtd_build_cmdline with
--                  Cmdline.Build (the text) and Cmdline.RoundTrip (how the receiver reads it).
--   Transport      adapters/transport_picoquic.c: the ports of a peer (Transport), its creation and
--                  removal (Transport.Peers), wt_session_cb and server_loop_cb (Transport.Callback).
--                  Transport.Sending and Transport.Datagrams follow bytes through the ports,
--                  Transport.Lifecycle and Transport.Isolation follow the list of peers.
--                  Transport.Bootstrap is wtd_transport_run. Transport.Network puts the callbacks, the
--                  packet loop and the reader threads together: one action after another, each with
--                  its own answers of malloc and of the libraries; Transport.Network.Served is one
--                  peer, Transport.Network.Events and Transport.Network.Safety all of them,
--                  Transport.Network.Stages, Transport.Network.Accepted and Transport.Network.Standing
--                  the order in the lives of the peers and which of them stand, Transport.Network.Removal what is destroyed with
--                  a peer. An event whose context is a freed peer is a fault of the model.
--   Autocert       adapters/autocert.c: the calls of mbedtls in order, Autocert.Blocks (copies into the
--                  heap blocks) and Autocert.Cleanup (the exits).
--   Main           adapters/main.c and the lines that adapters/log.c prints; Main.Values (which
--                  argument gives an option its value), Main.Reading (one argument), Main.Parsing
--                  (the loop), Main.Arguments and Main.Selftest.
--   Clock          adapters/wtd_wincompat.c.
--   Examples       examples/echo.c and examples/shout.c, which differ in the transform of the payload:
--                  Examples.Writing (write_all), Examples.Drain and Examples.Echo (the loops),
--                  Examples.Shout (the capitals).
--                  frame_hi.c is the two constants that it writes.
--   Prototypes     the callback of prototypes/http3_server_with_child.c: Prototypes.Pending (one call),
--                  Prototypes.Dropping (histories of calls). prototypes/handshake_echo_http3.c:
--                  Prototypes.Client is client_callback and run_client, with Prototypes.Client.Received
--                  (the buffers) and Prototypes.Client.Rounds (the loop); Prototypes.Handshake is the
--                  rest, with Prototypes.Handshake.Reading (read_line), Prototypes.Handshake.Ready
--                  (wait_for_ready) and Prototypes.Handshake.Exits (main). Prototypes.Minimal is
--                  minimal_http3_client.c, minimal_http3_server.c and the main of
--                  http3_server_with_child.c, with Prototypes.Minimal.Rounds and
--                  Prototypes.Minimal.Endings.
--   Daemon         session, echo child and reader thread together; Daemon.PeerEcho.
--   Tests          runs at concrete inputs.
--
-- How they interact. Main calls the transport adapter's bootstrap, which makes or loads a
-- certificate, creates the picoquic context and runs its packet loop. For a CONNECT the transport
-- makes a peer: a child process, a session wired to the peer's two ports, and a reader thread. Events
-- of the peer call the session, which calls the child port; the reader thread calls
-- wtd_session_on_output, which queues the frame, and wakes the network thread, which pumps the queue
-- into the transport port.
--
-- Bounds and fuel. Numbers are natural numbers; where the code's width matters the wrap-around is
-- written out (the size of the frame buffer is taken modulo 2 ^ 64, bytes modulo 256, the port
-- modulo 2 ^ 16). Walks over the queue take fuel: one round for each queued node is enough, as the
-- theorems on them state. The reader's inner loop takes one round more than there are bytes, since
-- every frame is at least two bytes long, and so does the inner loop of the examples. The rounds of
-- wtd_child_terminate are the 50 of the code. Strings and tokens are structural recursion, loops over
-- read(2) and write(2) run over the list of the kernel's answers, and so does the loop over select(2)
-- in prototypes/, whose two waits take one round of fuel for each 500 ms. Loops against the clock run
-- over the list of their rounds. Sequences of callbacks and calls are inductive relations or lists of
-- events without a bound.
--
-- Not modelled: picoquic, h3zero and mbedtls, which are third-party code (their calls are recorded
-- and their answers are arguments), and the copies of them in the repository; tests/; the signal
-- handlers; pthread's mutex and threads beyond the order of the regions that they guard; NULL
-- out-parameters of wtd_autocert_generate and NULL arguments of the two functions of
-- adapters/cmdline.c; the text form of certificate times; what is printed.
pub mod Common
pub mod Frame
pub mod WorkQueue
pub mod Session
pub mod ChildOutput
mod Tests
pub mod Transport
pub mod ChildProcess
pub mod Env
pub mod Main
pub mod Cmdline
pub mod Autocert
pub mod Examples
pub mod Clock
pub mod Daemon
pub mod Prototypes
