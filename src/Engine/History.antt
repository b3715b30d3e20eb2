-- ===== src/Engine/History.antt =====
-- The retained history of a pane: consecutive sequence numbers that end at the last one given.
use command_relay.Common.{
  ℕ, suc, ◌+◌, ◌-◌, ◌≤◌, String, List, [], ◌∷◌, ◌++◌, ltb, if◌then◌else◌, ◌≡◌, refl, subst, arith,
  length, length-append, tail,
}
use command_relay.Engine.Watcher.{
  Text, Mode, PaneEvent, PaneWatcher, next_event, insert_by_seq, sort_by_seq,
}

-- The events are numbered `b + 1`, `b + 2`, … up to `t`.
abbrev pub Run : ℕ → List PaneEvent → ℕ → Type 0
Run b [] t = b ≡ t
Run b (e ∷ es) t = (e.stream_seq ≡ suc b) × Run (suc b) es t

pub Run-length : (b t : ℕ) (es : List PaneEvent) → Run b es t → t ≡ b + length es
Run-length b t [] r = omega arith
Run-length b t (e ∷ es) (p, r) = omega (arith, Run-length (suc b) t es r)

pub Run-append :
    (b t : ℕ) (es : List PaneEvent) (e : PaneEvent)
    → Run b es t
    → e.stream_seq ≡ suc t
    → Run b (es ++ e ∷ []) (suc t)
Run-append b t [] e r p = ground arith
Run-append b t (d ∷ es) e (q, r) p = (q, Run-append (suc b) t es e r p)

-- The number of the event before the oldest one that is retained.
abbrev pub base : PaneWatcher → ℕ
base w = w.stream_seq - length w.history

pub record IsConsecutive (max_history_events : ℕ) (w : PaneWatcher) : Type 0 where
  pub numbered : Run (base w) w.history w.stream_seq
  pub fits : length w.history ≤ max_history_events

Run-base : (b t : ℕ) (es : List PaneEvent) → Run b es t → Run (t - length es) es t
Run-base b t es r =
    let e : b ≡ t - length es = omega (arith, Run-length b t es r) in subst (λ c. Run c es t) e r

pub Run-trim :
    (b t m : ℕ) (es : List PaneEvent)
    → Run b es t
    → Run (if ltb m (length es) then suc b else b) (if ltb m (length es) then tail es else es) t
Run-trim b t m [] r = ground arith
Run-trim b t m (e ∷ es) (p, r) = ground arith

length-trim :
    (m : ℕ) (es : List PaneEvent)
    → length es ≤ m + 1
    → length (if ltb m (length es) then tail es else es) ≤ m
length-trim m [] h = ground arith
length-trim m (e ∷ es) h = ground arith

-- Publishing an event keeps the history consecutive and within its bound, whatever the bound.
pub next_event-IsConsecutive :
    (m : ℕ) (w : PaneWatcher) (p : String) (mode : Mode) (chunk : Text)
    → IsConsecutive m w
    → IsConsecutive m (next_event m w p mode chunk).0
unfolding next_event
next_event-IsConsecutive m w p mode chunk c =
    let e : PaneEvent = record {
      mode = mode;
      pane_id = p;
      chunk = chunk;
      stream_seq = suc w.stream_seq;
    } in
    record {
      numbered =
          Run-base _ _ _
            (Run-trim _ _ m _ (Run-append (base w) w.stream_seq w.history e c.numbered refl));
      fits =
          length-trim m (w.history ++ e ∷ [])
            (omega (arith, length-append w.history (e ∷ []), c.fits));
    }

insert-first :
    (b t : ℕ) (e : PaneEvent) (es : List PaneEvent)
    → Run b es t
    → e.stream_seq ≤ b
    → insert_by_seq e es ≡ e ∷ es
unfolding insert_by_seq
insert-first b t e [] r h = refl
insert-first b t e (f ∷ fs) (p, r) h = ground arith

-- A consecutive history is in order: sorting it changes nothing.
pub sort_by_seq-Run : (b t : ℕ) (es : List PaneEvent) → Run b es t → sort_by_seq es ≡ es
unfolding sort_by_seq
sort_by_seq-Run b t [] r = refl
sort_by_seq-Run b t (e ∷ es) (p, r) =
    rw (sort_by_seq-Run (suc b) t es r) (insert-first (suc b) t e es r (omega arith))
