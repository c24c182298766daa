-- ===== src/Transport/Network/Safety.antt =====
-- No action faults, in any history.
use webtransportd.Common.{
  true, ◌∙◌, false, none, ℕ, suc, ◌+◌, ◌≡◌, ◌≤◌, refl, List, [], ◌∷◌, Option, some, length, arith,
  All,
}
use webtransportd.WorkQueue.{Ptr, null}
use webtransportd.Session.Interleaving.Lists.{some-injective}
use webtransportd.Session.{wtd_session_on_output_eof}
use webtransportd.Transport.Peers.{Peer, Server, replace}
use webtransportd.Transport.Callback.{
  Event, Surroundings, wt_session_cb, server_loop_cb, wt_session_connect,
}
use webtransportd.Transport.Lifecycle.{
  IsTidy, connect-IsTidy, callback-IsTidy, loop-IsTidy, replace-IsTidy,
}
use webtransportd.Transport.Network.{
  deliver_event, Action, connect, callback, loop, output, output_end, Weather, around, peer_output,
  at_peer, act, act_all,
}
use webtransportd.Transport.Network.Served.{record-Keeps, IsServed, peer_output-IsServed}
use webtransportd.Common.Int.{ℤ, pos}
use webtransportd.Transport.Network.Stages.{is_in, find_peer-IsListed}
use webtransportd.Transport.Network.Standing.{
  IsStanding, IsInOrder, IsOrderly, after_event, after_action, connect-IsStanding,
  replace-IsStanding, callback-IsStanding, loop-IsStanding,
}
use webtransportd.Transport.Network.Events.{
  loop_round-IsServed, IsFair, All-more, All-replace, All-find_peer, callback-IsServed,
  loop-IsServed, connect-IsServed,
}

-- Every session of the server holds its queue, the children that run are the peers', and the peers
-- are those that stand.
pub record IsWell (n : ℕ) (live : List Ptr) (s : Server) : Type 0 where
  pub served : All (IsServed n) s.peers
  pub tidy : IsTidy s
  pub standing : IsStanding live s

abbrev pub FairAction : Weather × Action → Type 0
FairAction (w, action) = IsFair w

at_peer-IsWell :
    (n : ℕ) (change : Peer → Option Peer) (a : Ptr) (s : Server) (live : List Ptr)
    → ((p : Peer)
        → IsServed n p
        → (p' : Peer) × (change p ≡ some p')
          × (p'.reader_started ≡ p.reader_started)
          × IsServed (suc n) p')
    → is_in a live ≡ true
    → IsWell n live s
    → (s' : Server) × (at_peer change a s ≡ some s') × IsWell (suc n) live s'
unfolding at_peer
at_peer-IsWell n change a s live keeps here well =
    let (p, there, _, r) = find_peer-IsListed a s.peers live well.standing.listed here in
    let (p', e, same, h) = keeps p (All-find_peer (IsServed n) a p s.peers there well.served) in
    (
      record s { peers = replace p' s.peers },
      rw (there, e, at_peer) refl,
      record {
        served =
            All-replace (IsServed (suc n)) p' s.peers h
              (All-more n (suc n) s.peers (omega arith) well.served);
        tidy = replace-IsTidy p' s well.tidy;
        standing = replace-IsStanding p' s live (same ∙ r) well.standing;
      },
    )

output_end-IsServed :
    (n : ℕ) (p : Peer)
    → IsServed n p
    → IsServed (suc n) (record p { session = wtd_session_on_output_eof p.session })
unfolding wtd_session_on_output_eof
output_end-IsServed n p (cs, held, few) =
    (cs, record-Keeps p.session _ cs refl refl held, omega arith)

peer_output-reader :
    (w : Weather) (flag : ℕ) (bytes : List ℕ) (p p' : Peer)
    → peer_output w flag bytes p ≡ some p'
    → p'.reader_started ≡ p.reader_started
unfolding peer_output
peer_output-reader w flag bytes p p' e = ground (arith, e)

null_context :
    (around : Surroundings) (event : Event) (s : Server)
    → deliver_event around event none s ≡ some s
unfolding deliver_event wt_session_cb
null_context around event s = refl

stands_at :
    (event : Event) (a b : Ptr) (s : Server) (live : List Ptr)
    → a ≡ b
    → IsStanding (after_event event a live) s
    → IsStanding (after_event event b live) s
stands_at event a b s live e h = rw⁻¹ e h

callback-IsWell :
    (rounds n : ℕ) (w : Weather) (event : Event) (a : Ptr) (s : Server) (live : List Ptr)
    → n ≤ rounds
    → IsFair w
    → is_in a live ≡ true
    → IsWell n live s
    → (s' : Server) × (deliver_event (around rounds w) event (some a) s ≡ some s')
      × IsWell (suc n) (after_event event a live) s'
unfolding deliver_event
callback-IsWell rounds n w event a s live enough fair here well =
    let (p, there, is, r) = find_peer-IsListed a s.peers live well.standing.listed here in
    let (s', e, h) =
      callback-IsServed n rounds w fair enough event (some p) s
        (λ q same.
          let held : IsServed n p = All-find_peer (IsServed n) a p s.peers there well.served in
          rw⁻¹ (some-injective same) held)
        well.served in
    let here' : is_in p.address live ≡ true = rw is here in
    let stands = callback-IsStanding (around rounds w) event p s s' live e r here' well.standing in
    (
      s',
      rw (there, deliver_event) e,
      record {
        served = All-more n (suc n) s'.peers (omega arith) h;
        tidy = callback-IsTidy (around rounds w) event (some p) s s' e well.tidy;
        standing = stands_at event p.address a s' live is stands;
      },
    )

-- One action in order does not fault, and leaves a server that is well.
act-IsWell :
    (rounds n : ℕ) (w : Weather) (action : Action) (s : Server) (live : List Ptr)
    → n ≤ rounds
    → IsFair w
    → IsInOrder action live
    → IsWell n live s
    → (s' : Server) × (act rounds w action s ≡ some s')
      × IsWell (suc n) (after_action action live) s'
unfolding act
act-IsWell rounds n w (connect c declared cnx stream) s live enough fair fresh well = (
  (wt_session_connect c declared cnx stream s).1,
  refl,
  record {
    served =
        All-more n (suc n) _ (omega arith) (connect-IsServed n c declared cnx stream s well.served);
    tidy = connect-IsTidy c declared cnx stream s well.tidy;
    standing = connect-IsStanding c declared cnx stream s live fresh well.standing;
  },
)
act-IsWell rounds n w (callback event none) s live enough fair ordered well = (
  s,
  null_context (around rounds w) event s,
  record {
    served = All-more n (suc n) s.peers (omega arith) well.served;
    tidy = well.tidy;
    standing = well.standing;
  },
)
act-IsWell rounds n w (callback event (some a)) s live enough fair here well =
    callback-IsWell rounds n w event a s live enough fair here well
act-IsWell rounds n w (loop terminate ready should_exit) s live enough fair ordered well =
    let ((rc, s'), e, h) =
      loop-IsServed n rounds w fair enough terminate ready should_exit s well.served in
    (
      s',
      rw e refl,
      record {
        served = All-more n (suc n) s'.peers (omega arith) h;
        tidy = loop-IsTidy (around rounds w) terminate rc ready should_exit s s' e well.tidy;
        standing =
            loop-IsStanding (around rounds w) terminate rc ready should_exit s s' live e
              well.standing;
      },
    )
act-IsWell rounds n w (output a flag bytes) s live enough fair here well =
    at_peer-IsWell n (peer_output w flag bytes) a s live
      (λ p h.
        let (p', e, h') = peer_output-IsServed w n flag bytes p fair.allocator h in
        (p', e, peer_output-reader w flag bytes p p' e, h'))
      here well
act-IsWell rounds n w (output_end a) s live enough fair here well =
    at_peer-IsWell n (λ p. some (record p { session = wtd_session_on_output_eof p.session })) a s
      live (λ p h. (_, refl, refl, output_end-IsServed n p h)) here well

-- The addresses of the peers after a history.
abbrev pub after_all : List (Weather × Action) → List Ptr → List Ptr
after_all [] live = live
after_all ((w, action) ∷ actions) live = after_all actions (after_action action live)

counted : (n m : ℕ) (live : List Ptr) (s : Server) → n ≡ m → IsWell n live s → IsWell m live s
counted n m live s e well = rw⁻¹ e well

act_all-IsWell :
    (rounds n : ℕ) (actions : List (Weather × Action)) (s : Server) (live : List Ptr)
    → All FairAction actions
    → IsOrderly live actions
    → length actions + n ≤ rounds
    → IsWell n live s
    → (s' : Server) × (act_all rounds actions s ≡ some s')
      × IsWell (length actions + n) (after_all actions live) s'
unfolding act_all
act_all-IsWell rounds n [] s live fair ordered enough well =
    (s, refl, counted n _ live s (omega arith) well)
act_all-IsWell rounds n ((w, action) ∷ actions) s live (one, others) (first, later) enough well =
    let (s1, e1, well1) = act-IsWell rounds n w action s live (omega arith) one first well in
    let (s2, e2, well2) =
      act_all-IsWell rounds (suc n) actions s1 (after_action action live) others later (omega arith)
        well1 in
    (s2, rw (e1, e2) refl, counted _ _ _ s2 (omega arith) well2)

pub act_all-total :
    (rounds : ℕ) (actions : List (Weather × Action))
    → All FairAction actions
    → IsOrderly [] actions
    → length actions ≤ rounds
    → (s : Server) × (act_all rounds actions (record { peers = []; life = [] }) ≡ some s)
      × IsWell (length actions) (after_all actions []) s
act_all-total rounds actions fair ordered enough =
    let (s, e, well) =
      act_all-IsWell rounds 0 actions (record { peers = []; life = [] }) [] fair ordered
        (omega arith)
        (record {
          served = tt;
          tidy = λ a. refl;
          standing = record { listed = tt; sound = λ a. refl; distinct = tt };
        }) in
    (s, e, counted _ _ _ s (omega arith) well)

-- Nothing is queued, and no node is in memory.
abbrev pub IsFlushed : Peer → Type 0
IsFlushed p = (p.session.outbound.head ≡ null) × ((b : Ptr) → p.session.nodes b ≡ none)

IsServed-IsFlushed : (peers : List Peer) → All (IsServed 0) peers → All IsFlushed peers
IsServed-IsFlushed [] h = tt
IsServed-IsFlushed (p ∷ peers) (([], held, few), others) =
    ((held.queued.starts, λ b. held.exact b refl), IsServed-IsFlushed peers others)
IsServed-IsFlushed (p ∷ peers) ((c ∷ cs, held, few), others) = absurd (omega arith)

-- Whatever history of fair answers the daemon has behind it, from a server without peers on and with
-- as many rounds for a pump as it has actions, where malloc gives a new peer an address no peer has,
-- the context of an event is NULL or a peer accepted and not removed, and the reader thread of a
-- removed peer delivers nothing: one more call of the packet loop's callback, not the one at the
-- start and without a request to exit, answers 0 and leaves each session with an empty queue and
-- every queue node freed.
pub loop-flushes :
    (rounds : ℕ) (actions : List (Weather × Action)) (w : Weather) (terminate : ℤ)
    → All FairAction actions
    → IsOrderly [] actions
    → IsFair w
    → length actions ≤ rounds
    → (s : Server) × (s' : Server) × (act_all rounds actions (record { peers = []; life = [] })
        ≡ some s)
      × (server_loop_cb (around rounds w) terminate false false s ≡ some (pos 0, s'))
      × All IsFlushed s'.peers
loop-flushes rounds actions w terminate fair ordered now enough =
    let (s, e, well) = act_all-total rounds actions fair ordered enough in
    let (s', e', empty) =
      loop_round-IsServed (length actions) rounds w now enough terminate s well.served in
    (s, s', e, e', IsServed-IsFlushed s'.peers empty)
