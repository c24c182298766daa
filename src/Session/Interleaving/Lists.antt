-- ===== src/Session/Interleaving/Lists.antt =====
-- The two lists of frames while a pump runs: its own, and the queue.
use mathlib.Core.List.{map-append}
use webtransportd.Common.{
  ℕ, ◌≡◌, ◌≢◌, refl, ap, ◌∙◌, Bool, true, false, List, [], ◌∷◌, ◌++◌, none, some, ◌==◌, arith, inl,
  inr, Bool-cases, append_assoc, map, ◌||◌,
}
use webtransportd.WorkQueue.{Ptr, Heap}
use webtransportd.WorkQueue.Chain.{Message, Cells, Chain, first, has, messages}
use webtransportd.Session.Pump.{Queued}
use webtransportd.Session.Interleaving.{Phase, idle, finishing, flushing, System, carried, sent}

abbrev pub Detached : Phase → Cells → Type 0
Detached idle cs = cs ≡ []
Detached finishing cs = cs ≡ []
Detached (flushing p) cs = p ≡ first cs

-- The frames of the pump's list and those of the queue, and how they follow what was sent.
pub record InOrder (s : System) (ms : List Message) (detached queued : Cells) : Type 0 where
  pub list : Chain s.session.nodes detached
  pub at : Detached s.phase detached
  pub queue : Queued s.session queued
  pub apart : (b : Ptr) → has b detached ≡ true → has b queued ≡ false
  pub order : sent s.trace ++ map carried (messages detached ++ messages queued) ≡ map carried ms

Chain-live : (h : Heap) (cs : Cells) (b : Ptr) → Chain h cs → has b cs ≡ true → h b ≢ none
Chain-live h [] b k e = cc
Chain-live h ((p, m) ∷ cs) b (ne, at, apart, rest) e = elim (Bool-cases (b == p)) [
  | inl same ↦ ground arith
  | inr other ↦ Chain-live h cs b rest (ground arith)
]

pub Chain-cong :
    (h h' : Heap) (cs : Cells)
    → Chain h cs
    → ((b : Ptr) → has b cs ≡ true → h' b ≡ h b)
    → Chain h' cs
Chain-cong h h' [] k same = tt
Chain-cong h h' ((p, m) ∷ cs) (ne, at, apart, rest) same =
    (ne, same p (ground arith) ∙ at, apart, Chain-cong h h' cs rest (λ b e. same b (ground arith)))

pub some-injective {ℓ} : {A : Type ℓ} {x y : A} → some x ≡ some y → x ≡ y
some-injective e = cc

pub or-false : {a b : Bool} → a ≡ false → b ≡ false → (a || b) ≡ false
or-false e f = rw (e, f) refl

pub not_live : (h : Heap) (cs : Cells) (a : Ptr) → Chain h cs → h a ≡ none → has a cs ≡ false
not_live h cs a k free = elim (Bool-cases (has a cs)) [
  | inl in' ↦ absurd (Chain-live h cs a k in' free)
  | inr out ↦ out
]

pub apart_from :
    (h : Heap) (cs : Cells) (a b : Ptr)
    → Chain h cs
    → h a ≡ none
    → has b cs ≡ true
    → (b == a) ≡ false
apart_from h cs a b k free at = elim (Bool-cases (b == a)) [
  | inl same ↦ let e : b ≡ a = ground arith in absurd (Chain-live h cs b k at (ap h e ∙ free))
  | inr other ↦ other
]

pub order-snoc :
    (before : List (Bool × List ℕ)) (xs ys ms : List Message) (m : Message)
    → before ++ map carried (xs ++ ys) ≡ map carried ms
    → before ++ map carried (xs ++ (ys ++ (m ∷ []))) ≡ map carried (ms ++ (m ∷ []))
order-snoc before xs ys ms m e = simp map-append (
    simp (map-append, append_assoc) at (ap (λ (l : List (Bool × List ℕ)). l ++ (carried m ∷ [])) e))
