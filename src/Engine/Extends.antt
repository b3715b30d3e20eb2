-- ===== src/Engine/Extends.antt =====
-- What every operation of the engine does to the watchers in its store.
use command_relay.Common.{
  ℕ, suc, ◌≤◌, ◌<◌, false, String, Option, List, [], ◌∷◌, ◌==◌, nat_eq, nat_beq_iff, string_eq, ◌≡◌,
  refl, subst, sym, ◌∙◌, arith, JsNumber, Bool-cases, Option-cases, inl, inr, add, remove,
}
use command_relay.Common.Assoc.{get, set}
use command_relay.Engine.Watcher.{PaneWatcher, new_watcher, snapshot, compute_delta}
use command_relay.Engine.Delta.{apply-compute_delta}
use command_relay.Engine.History.{IsConsecutive}
use command_relay.Engine.Resume.{Evolves, Evolves-IsConsecutive, unchanged, resubscribed, published}
use command_relay.Engine.{
  Engine, Capture, captured, failed, write, ensure_started, stop_if_idle, subscribe, attach_start,
  attach_finish, detach, detach_each, detach_all, poll_start, poll_round, poll_stop,
}

abbrev pub AllConsecutive : ℕ → (ℕ → PaneWatcher) → Type 0
AllConsecutive m watchers = (ref : ℕ) → IsConsecutive m (watchers ref)

-- No watcher is lost or reset: each that was made goes on from where it was; and histories stay
-- consecutive, those of new watchers too.
pub record Extends (e f : Engine) : Type 0 where
  pub same_max : f.max_history_events ≡ e.max_history_events
  pub grows : e.next_ref ≤ f.next_ref
  pub evolves :
      (ref : ℕ) → ref < e.next_ref → Evolves e.max_history_events (e.watchers ref) (f.watchers ref)
  pub consecutive :
      AllConsecutive e.max_history_events e.watchers
      → AllConsecutive e.max_history_events f.watchers

Evolves-trans : {m : ℕ} {u v w : PaneWatcher} → Evolves m u v → Evolves m v w → Evolves m u w
Evolves-trans d unchanged = d
Evolves-trans d (resubscribed c s) = resubscribed (Evolves-trans d c) s
Evolves-trans d (published c p mode chunk text e) =
    published (Evolves-trans d c) p mode chunk text e

pub Extends-refl : (e : Engine) → Extends e e
Extends-refl e = record {
  same_max = refl;
  grows = omega arith;
  evolves = λ ref h. unchanged;
  consecutive = λ h. h;
}

pub Extends-trans : {e f g : Engine} → Extends e f → Extends f g → Extends e g
Extends-trans {e} {f} {g} a b = record {
  same_max = b.same_max ∙ a.same_max;
  grows = omega (arith, a.grows, b.grows);
  evolves = λ ref h. Evolves-trans (a.evolves ref h) (
      subst (λ m. Evolves m (f.watchers ref) (g.watchers ref)) a.same_max
        (b.evolves ref (omega (arith, a.grows))));
  consecutive = λ h.
      subst (λ m. AllConsecutive m f.watchers → AllConsecutive m g.watchers) a.same_max
        b.consecutive (a.consecutive h);
}

Extends-like :
    {e f g : Engine}
    → Extends e f
    → g.watchers ≡ f.watchers
    → g.next_ref ≡ f.next_ref
    → g.max_history_events ≡ f.max_history_events
    → Extends e g
Extends-like {e} a w n m = record {
  same_max = m ∙ a.same_max;
  grows = omega (arith, a.grows);
  evolves = λ ref h.
      subst (λ ws. Evolves e.max_history_events (e.watchers ref) (ws ref)) (sym w)
        (a.evolves ref h);
  consecutive = λ h. subst (AllConsecutive e.max_history_events) (sym w) (a.consecutive h);
}

Extends-write :
    (e : Engine) (ref : ℕ) (w : PaneWatcher)
    → Evolves e.max_history_events (e.watchers ref) w
    → Extends e (write ref w e)
Extends-write e ref w d = record {
  same_max = refl;
  grows = omega arith;
  evolves = λ r h. elim (Bool-cases (ref == r)) [
    | inl same ↦
        rw same (
          subst (λ x. Evolves e.max_history_events (e.watchers x) w) ((nat_beq_iff ref r).0 same) d)
    | inr other ↦ rw other unchanged
  ];
  consecutive = λ h r. elim (Bool-cases (ref == r)) [
    | inl same ↦ rw same (Evolves-IsConsecutive e.max_history_events (h ref) d)
    | inr other ↦ rw other (h r)
  ];
}

Extends-stop : {e f : Engine} → Extends e f → Extends e (stop_if_idle f)
unfolding stop_if_idle
Extends-stop {e} {f} a = Extends-like a (ground arith) (ground arith) (ground arith)

subscribe-fresh :
    (c p : String) (e : Engine)
    → Extends e (
        write e.next_ref
          (record new_watcher { subscribers = c ∷ [] })
          (record e { panes = set p e.next_ref e.panes; next_ref = suc e.next_ref }))
subscribe-fresh c p e = record {
  same_max = refl;
  grows = omega arith;
  evolves = λ ref h. let other : (e.next_ref == ref) ≡ false = ground arith in rw other unchanged;
  consecutive = λ h r. elim (Bool-cases (e.next_ref == r)) [
    | inl same ↦ rw same (record { numbered = refl; fits = omega arith })
    | inr other ↦ rw other (h r)
  ];
}

pub subscribe-Extends : (c p : String) (e : Engine) → Extends e (subscribe c p e).0
unfolding subscribe
subscribe-Extends c p e = elim (Option-cases (get p e.panes)) [
  | inl h ↦ rw (h, subscribe) (subscribe-fresh c p e)
  | inr (ref, h) ↦
      rw (h, subscribe)
        (Extends-write e ref _ (resubscribed unchanged (add c (e.watchers ref).subscribers)))
]

pub attach_start-Extends :
    (c p : String) (since : Option JsNumber) (e : Engine) → Extends e (attach_start c p since e).0
unfolding attach_start ensure_started
attach_start-Extends c p since e =
    Extends-like (subscribe-Extends c p e) (ground arith) (ground arith) (ground arith)

pub attach_finish-Extends :
    (c p : String) (since : Option JsNumber) (ref : ℕ) (r : Capture) (e : Engine)
    → Extends e (attach_finish c p since ref r e).0
unfolding attach_finish ensure_started
attach_finish-Extends c p since ref (captured text) e =
    Extends-like (Extends-write e ref _ (published unchanged p snapshot text text refl)) refl refl
      refl
attach_finish-Extends c p since ref failed e = Extends-stop (
    Extends-like
      (Extends-write e ref _ (resubscribed unchanged (remove c (e.watchers ref).subscribers)))
      (ground arith) (ground arith) (ground arith))

pub detach-Extends : (c p : String) (e : Engine) → Extends e (detach c p e)
unfolding detach
detach-Extends c p e = elim (Option-cases (get p e.panes)) [
  | inl h ↦ rw (h, detach) (Extends-refl e)
  | inr (ref, h) ↦
      rw (h, detach)
        (Extends-stop (
          Extends-like
            (Extends-write e ref _ (resubscribed unchanged (remove c (e.watchers ref).subscribers)))
            (ground arith) (ground arith) (ground arith)))
]

detach_each-Extends :
    (c : String) (entries : List (String × ℕ)) (e : Engine) → Extends e (detach_each c entries e)
unfolding detach_each
detach_each-Extends c [] e = Extends-refl e
detach_each-Extends c ((p, _) ∷ entries) e =
    Extends-trans (detach-Extends c p e) (detach_each-Extends c entries (detach c p e))

pub detach_all-Extends : (c : String) (e : Engine) → Extends e (detach_all c e)
unfolding detach_all
detach_all-Extends c e = detach_each-Extends c e.panes e

pub poll_start-Extends : (e : Engine) → Extends e (poll_start e).0
unfolding poll_start
poll_start-Extends e = Extends-like (Extends-refl e) (ground arith) (ground arith) (ground arith)

pub poll_stop-Extends : (e : Engine) → Extends e (poll_stop e)
unfolding poll_stop
poll_stop-Extends e = Extends-like (Extends-refl e) refl refl refl

pub poll_round-Extends :
    (p : String) (ref : ℕ) (r : Capture) (e : Engine) → Extends e (poll_round p ref r e).0
unfolding poll_round
poll_round-Extends p ref failed e = Extends-refl e
poll_round-Extends p ref (captured text) e =
    elim (Option-cases (compute_delta (e.watchers ref).last_output text)) [
      | inl h ↦ rw (h, poll_round) (Extends-refl e)
      | inr ((mode, chunk), h) ↦
          rw (h, poll_round)
            (Extends-write e ref _ (
              published unchanged p mode chunk text
                (apply-compute_delta (e.watchers ref).last_output text mode chunk h)))
    ]
