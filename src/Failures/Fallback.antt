-- ===== src/Failures/Fallback.antt =====
-- Why a resume fell back to a snapshot: src/server/bridge-runtime-failures.ts on what
-- src/bridge/bridge-engine.ts reports.
use command_relay.Common.{
  ℕ, ◌≤◌, ◌<◌, String, Bool, true, false, some, List, [], ◌∷◌, ltb, if◌then◌else◌, nat_eq, ◌≡◌,
  refl, arith, pos, Bool-cases, inl, inr, head?,
}
use mathlib.Core.Option
use command_relay.Engine.Watcher.{
  PaneEvent, PaneWatcher, events_after, has_gap, can_replay, resume, seq_of,
}
use command_relay.Engine.History.{Run, base, IsConsecutive, sort_by_seq-Run}
use command_relay.Engine.Retained.{events_after-none, events_after-all}
use command_relay.Engine.Resume.{resume-replay_iff}
use command_relay.Failures.{
  ahead_of_stream, outside_retained_window, empty_resume_window, is_before,
  classify_replay_snapshot_fallback_reason,
}

gap-before :
    (b t k : ℕ) (es : List PaneEvent)
    → Run b es t
    → k < b
    → has_gap (pos k) t (events_after (pos k) es) ≡ true
unfolding has_gap
gap-before b t k [] r h = ground arith
gap-before b t k (e ∷ es) (q, r) h =
    rw (events_after-all b t k (e ∷ es) (q, r) (omega arith)) (ground arith)

gap-at_end :
    (b t k : ℕ) (es : List PaneEvent)
    → Run b es t
    → t ≤ k
    → has_gap (pos k) t (events_after (pos k) es) ≡ false
unfolding has_gap
gap-at_end b t k es r h = rw (events_after-none b t k es r h) (ground arith)

oldest-retained :
    (b t k : ℕ) (es : List PaneEvent)
    → Run b es t
    → b ≤ k
    → is_before (pos k) (Option.map seq_of (head? es)) ≡ false
oldest-retained b t k [] r h = refl
oldest-retained b t k (e ∷ es) (q, r) h = ground arith

module _ (m : ℕ) (v : PaneWatcher) (c : IsConsecutive m v) (p : String) (k : ℕ) where
  abbrev gap : Bool
  gap = has_gap (pos k) v.stream_seq (events_after (pos k) v.history)

  -- The metadata of a fallback.
  fallback-metadata :
      (resume p (pos k) v).1.fallback_to_snapshot ≡ true
      → ((resume p (pos k) v).1.requested_last_seq ≡ some (pos k))
        × ((resume p (pos k) v).1.latest_seq ≡ v.stream_seq)
        × ((resume p (pos k) v).1.oldest_history_seq ≡ Option.map seq_of (head? v.history))
        × ((resume p (pos k) v).1.replay_gap_detected ≡ gap)
        × ((resume p (pos k) v).1.replay_used ≡ false)
  unfolding resume
  fallback-metadata =
      rw (sort_by_seq-Run (base v) v.stream_seq v.history c.numbered)
        (elim (Bool-cases (can_replay (events_after (pos k) v.history) gap)) [
          | inl replay ↦ rw replay (λ h. cc)
          | inr fallback ↦ rw fallback (λ h. (refl, refl, refl, refl, refl))
        ])

  -- Of a watcher with a consecutive history: where a resume from an event falls back to a snapshot,
  -- the reason is that the client is ahead of the stream if the event is after the latest, that the
  -- event is outside the retained window if something after it was dropped, and else that there is
  -- nothing to resume.
  pub fallback_reason-resume :
      (resume p (pos k) v).1.fallback_to_snapshot ≡ true
      → classify_replay_snapshot_fallback_reason (resume p (pos k) v).1 ≡ (
          if ltb v.stream_seq k
          then ahead_of_stream
          else if ltb k (base v)
          then outside_retained_window
          else empty_resume_window)
  unfolding classify_replay_snapshot_fallback_reason
  fallback_reason-resume h =
      let (requested, latest, oldest, gap_is, unused) = fallback-metadata h in
      rw (classify_replay_snapshot_fallback_reason, requested, latest, oldest, gap_is)
        (ground (
          arith,
          gap-before (base v) v.stream_seq k v.history c.numbered,
          gap-at_end (base v) v.stream_seq k v.history c.numbered,
          oldest-retained (base v) v.stream_seq k v.history c.numbered,
          (resume-replay_iff m v c p k).1,
          unused,
        ))
