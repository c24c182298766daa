-- ===== src/Tests/InterleavingRuns.antt =====
-- A run of the two threads of a session.
use webtransportd.Common.{ℕ, ◌≤◌, some, ◌≡◌, ◌⊎◌, ◌≢◌, refl, List, [], ◌∷◌, ◌++◌, map, none}
use webtransportd.WorkQueue.{null}
use webtransportd.WorkQueue.Chain.{Message}
use webtransportd.Session.{wtd_session_init, wtd_session_on_output, emit_fin, send_frame}
use webtransportd.Session.Pump.{message}
use webtransportd.Session.Interleaving.{
  System, idle, Reach, here, after, outputs, loses, drains, sends, flushed, finishes, carried, sent,
}
use webtransportd.Session.Interleaving.Order.{at_rest, Reach-sends}
use webtransportd.Session.Interleaving.Progress.{network_run, Reach-drains}
use webtransportd.Tests.SessionRuns.{accepting}

-- A frame for which there is no node is lost; a second frame comes in while the pump sends the first.
abbrev two : List Message
two = message 0 (7 ∷ []) ∷ message 1 (8 ∷ []) ∷ []

run : (s : System) × Reach accepting (at_rest accepting (λ p. none)) s two
unfolding wtd_session_init wtd_session_on_output emit_fin send_frame
    webtransportd.WorkQueue.wtd_work_queue_push webtransportd.WorkQueue.wtd_work_queue_drain
run = (
  _,
  after
      (after
        (after
          (after
            (after
              (after (after here (loses 1 (9 ∷ []) _ refl refl))
                (outputs 5 0 (7 ∷ []) _ (λ e. cc) refl refl refl))
              (drains refl refl))
            (outputs 6 1 (8 ∷ []) _ (λ e. cc) refl refl refl))
          (sends 5 _ refl (λ e. cc) refl refl))
        (flushed refl refl))
      (finishes refl refl),
)

Reach-sends_example :
    (pending : List Message) × (sent run.0.trace ++ map carried pending ≡ map carried two)
    × ((pending ≡ []) ⊎ ((run.0.phase ≢ idle) ⊎ (run.0.session.outbound.head ≢ null)))
Reach-sends_example = Reach-sends accepting (λ p. none) run.0 two run.1

-- The pump stands between the two frames.
half_way : (s : System) × Reach accepting (at_rest accepting (λ p. none)) s two
unfolding wtd_session_init wtd_session_on_output send_frame
    webtransportd.WorkQueue.wtd_work_queue_push webtransportd.WorkQueue.wtd_work_queue_drain
half_way = (
  _,
  after
      (after
        (after (after here (outputs 5 0 (7 ∷ []) _ (λ e. cc) refl refl refl)) (drains refl refl))
        (outputs 6 1 (8 ∷ []) _ (λ e. cc) refl refl refl))
      (sends 5 _ refl (λ e. cc) refl refl),
)

Reach-drains_example :
    (n : ℕ) × (s' : System) × (network_run accepting n half_way.0 ≡ some s')
    × (n ≤ 7)
    × Reach accepting (at_rest accepting (λ p. none)) s' two
    × (s'.phase ≡ idle)
    × (s'.session.outbound.head ≡ null)
    × (sent s'.trace ≡ map carried two)
Reach-drains_example = Reach-drains accepting (λ p. none) half_way.0 two half_way.1
