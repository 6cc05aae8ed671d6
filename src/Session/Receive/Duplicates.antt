-- ===== src/Session/Receive/Duplicates.antt =====
-- Reliable frames that come twice.
use raknet_rust.Common.{
  ℕ, ◌+◌, ◌*◌, ◌≤◌, ◌<◌, ◌≡◌, refl, inl, inr, true, false, ==_refl, [], ◌∷◌, length, Option, none,
  some, Result, ok, err, Bool-cases,
}
use raknet_rust.Protocol.Errors.{DecodeError}
use raknet_rust.Protocol.Sequence24.{Sequence24, IsSeq, modulo, distance_to}
use raknet_rust.Protocol.Reliability.{is_reliable, is_ordered, is_sequenced}
use raknet_rust.Protocol.Frame.{Frame, reliability_of}
use raknet_rust.Session.ReliableTracker.{ReliableTracker, see, has_seen}
use raknet_rust.Session.ReliableTracker.Agree.{has_seen-see}
use raknet_rust.Session.ReliableTracker.Stale.{accepted_forgotten}
use raknet_rust.Session.SplitAssembler
use raknet_rust.Session.SplitAssembler.{SplitAssembler}
use raknet_rust.Session.Receive.{
  Receiver, tracked_index, is_duplicate, note_index, route_frame, after_assembly, drop_duplicate,
  handle_frame, append_out, continue_with, handle_frames,
}

-- A frame that is no part, is not ordered or sequenced, and has this reliable index.
pub record IsPlain (f : Frame) (i : Sequence24) : Type 0 where
  pub whole : f.header.is_split ≡ false
  pub reliable : is_reliable (reliability_of f) ≡ true
  pub unsequenced : is_sequenced (reliability_of f) ≡ false
  pub unordered : is_ordered (reliability_of f) ≡ false
  pub index : f.reliable_index ≡ some i

abbrev pub with_tracker : Receiver → ReliableTracker → Receiver
with_tracker r t = record r { reliable_tracker = t }

unseen : (t : ReliableTracker) → has_seen t t.base ≡ false
unfolding has_seen
unseen t = rw (==_refl t.base) refl

pub plain_lem :
    (r : Receiver) (f : Frame) (i now : ℕ)
    → IsPlain f i
    → has_seen r.reliable_tracker i ≡ false
    → handle_frame r f now ≡ (with_tracker r (see r.reliable_tracker i).0, ok (f ∷ []))
unfolding handle_frame tracked_index is_duplicate SplitAssembler.add after_assembly note_index
    route_frame
plain_lem r f i now p n = rw (p.whole, p.reliable, p.index, n, p.unsequenced, p.unordered) refl

-- A plain reliable frame that comes at the base of the tracker is handed over, and so is a second
-- copy of it: a window below 2 ^ 23 and a deque within it do not prevent that.
pub handle_frames-twice :
    (r : Receiver) (f : Frame) (now : ℕ)
    → IsPlain f r.reliable_tracker.base
    → IsSeq r.reliable_tracker.base
    → length r.reliable_tracker.seen_ahead ≤ r.reliable_tracker.max_window
    → 2 * r.reliable_tracker.max_window + 1 < modulo
    → (handle_frames r (f ∷ f ∷ []) now).1 ≡ ok (f ∷ f ∷ [])
unfolding handle_frames continue_with append_out
handle_frames-twice r f now p s l w =
    let t = r.reliable_tracker in
    let forgotten = (accepted_forgotten t s l w).1 in
    let first = plain_lem r f t.base now p (unseen t) in
    let again = plain_lem (with_tracker r (see t t.base).0) f t.base now p forgotten in
    rw (first, again) refl

pub seen_lem :
    (r : Receiver) (f : Frame) (i now : ℕ)
    → IsPlain f i
    → has_seen r.reliable_tracker i ≡ true
    → handle_frame r f now ≡ (drop_duplicate r, ok [])
unfolding handle_frame tracked_index is_duplicate
seen_lem r f i now p old = rw (p.whole, p.reliable, p.index, old) refl

-- A plain reliable frame whose index lies ahead of the base and in the window is handed over once at
-- most: a copy that comes right behind it is dropped and counted.
pub handle_frame-drop_duplicate :
    (r : Receiver) (f : Frame) (i now : ℕ)
    → IsPlain f i
    → IsSeq r.reliable_tracker.base
    → IsSeq i
    → 0 < distance_to r.reliable_tracker.base i
    → distance_to r.reliable_tracker.base i ≤ r.reliable_tracker.max_window
    → let again = (handle_frame r f now).0 in
      handle_frame again f now ≡ (drop_duplicate again, ok [])
handle_frame-drop_duplicate r f i now p hb hi ahead near =
    elim (Bool-cases (has_seen r.reliable_tracker i)) [
      | inl old ↦
          let dropped = seen_lem r f i now p old in
          rw dropped (seen_lem (drop_duplicate r) f i now p (unfold drop_duplicate in old))
      | inr new ↦ rw (plain_lem r f i now p new) (
          seen_lem (with_tracker r (see r.reliable_tracker i).0) f i now p
            (has_seen-see r.reliable_tracker i hb hi ahead near))
    ]

keeps_tracker :
    (r : Receiver) (f : Frame) (a : SplitAssembler) (x : Result DecodeError (Option Frame))
    → f.header.is_split ≡ true
    → (after_assembly r f a x).0.reliable_tracker ≡ r.reliable_tracker
unfolding after_assembly route_frame
keeps_tracker r f a (err e) h = refl
keeps_tracker r f a (ok none) h = refl
keeps_tracker r f a (ok (some whole)) h = elim (Bool-cases (is_sequenced (reliability_of whole))) [
  | inl t ↦ rw (h, t) refl
  | inr n ↦ elim (Bool-cases (is_ordered (reliability_of whole))) [
    | inl t ↦ rw (h, n, t) refl
    | inr m ↦ rw (h, n, m) refl
  ]
]

-- A part never changes the tracker, so that its base does not move past the reliable index of a part.
pub handle_frame-parts :
    (r : Receiver) (f : Frame) (now : ℕ)
    → f.header.is_split ≡ true
    → (handle_frame r f now).0.reliable_tracker ≡ r.reliable_tracker
unfolding handle_frame drop_duplicate
handle_frame-parts r f now h =
    elim (Bool-cases (is_duplicate r.reliable_tracker (tracked_index f))) [
      | inl t ↦ rw t refl
      | inr n ↦ rw n (keeps_tracker r f _ _ h)
    ]
