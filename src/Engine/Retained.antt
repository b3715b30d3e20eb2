-- ===== src/Engine/Retained.antt =====
-- The retained events after a sequence number: what `attach` of src/bridge/bridge-engine.ts replays.
use command_relay.Common.{
  ℕ, suc, ◌≤◌, ◌<◌, List, [], ◌∷◌, ◌++◌, ltb, if◌then◌else◌, nat_eq, ◌≡◌, refl, subst, arith,
  length, tail, pos, inl, inr, Bool-cases,
}
use command_relay.Engine.Watcher.{PaneEvent, events_after}
use command_relay.Engine.History.{Run, Run-length}

pub events_after-none :
    (b t k : ℕ) (es : List PaneEvent) → Run b es t → t ≤ k → events_after (pos k) es ≡ []
events_after-none b t k [] r h = refl
events_after-none b t k (e ∷ es) (p, r) h =
    ground (arith, events_after-none (suc b) t k es r, Run-length (suc b) t es r)

pub events_after-append :
    (k : ℕ) (es : List PaneEvent) (e : PaneEvent)
    → k < e.stream_seq
    → events_after (pos k) (es ++ e ∷ []) ≡ events_after (pos k) es ++ e ∷ []
events_after-append k [] e h = ground arith
events_after-append k (d ∷ es) e h = ground (arith, events_after-append k es e h)

pub events_after-trim :
    (b t m k : ℕ) (es : List PaneEvent)
    → Run b es t
    → (if ltb m (length es) then suc b else b) ≤ k
    → events_after (pos k) (if ltb m (length es) then tail es else es) ≡ events_after (pos k) es
events_after-trim b t m k [] r h = ground arith
events_after-trim b t m k (e ∷ es) (p, r) h = ground arith

pub events_after-all :
    (b t k : ℕ) (es : List PaneEvent) → Run b es t → k ≤ b → events_after (pos k) es ≡ es
events_after-all b t k [] r h = refl
events_after-all b t k (e ∷ es) (p, r) h = ground (arith, events_after-all (suc b) t k es r)

pub events_after-Run :
    (b t k : ℕ) (es : List PaneEvent)
    → Run b es t
    → b ≤ k
    → k ≤ t
    → Run k (events_after (pos k) es) t
events_after-Run b t k [] r h l = omega arith
events_after-Run b t k (e ∷ es) (p, r) h l = elim (Bool-cases (ltb k e.stream_seq)) [
  | inl q ↦
      let same : b ≡ k = ground arith in
      subst (λ c. Run c (events_after (pos k) (e ∷ es)) t) same
        (rw (events_after-all b t k (e ∷ es) (p, r) (omega arith)) (p, r))
  | inr q ↦ rw q (events_after-Run (suc b) t k es r (ground arith) l)
]

-- The first event after `k` is the next one only if none between was dropped.
pub next-base :
    (b t k : ℕ) (es r : List PaneEvent) (e : PaneEvent)
    → Run b es t
    → events_after (pos k) es ≡ e ∷ r
    → e.stream_seq ≡ suc k
    → b ≤ k
next-base b t k [] r e h q s = cc
next-base b t k (f ∷ fs) r e (p, h) q s = ground arith
