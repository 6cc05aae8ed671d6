-- ===== src/Session/OrderingChannels/History.antt =====
-- Whole histories of ordered frames over all channels.
use raknet_rust.Common.{
  ℕ, ◌+◌, ◌-◌, ◌<◌, ◌≡◌, refl, sym, ◌∙◌, ap, subst, inl, inr, Bool, true, false, ◌==◌, leb, List,
  [], ◌∷◌, ◌++◌, length, length-append, length-replicate, get_or, replicate,
  get_or-append_replicate, get_or-set, All, All-append, All-replicate, All-get_or, All-set, Option,
  none, some, Option-cases, Bool-cases, arith, if◌then◌else◌,
}
use raknet_rust.Protocol.Sequence24.{Sequence24, IsSeq, next}
use raknet_rust.Protocol.Frame.{Frame}
use raknet_rust.Session.OrderingChannels.InOrder.{Consecutive, IsChannel, delivered, order_in-Kept}
use raknet_rust.Session.OrderingChannels.{
  ChannelState, default_channel, OrderedResult, ready, OrderingChannels, grow, channel_of, order_in,
  handle_indexed, dispatch, handle_ordered, new,
}

abbrev pub AreChannels : OrderingChannels → Type 0
AreChannels o = All (IsChannel o.max_pending_per_channel) o.channels

-- The state of a channel; one that was not used yet is the default.
abbrev pub channel : OrderingChannels → ℕ → ChannelState
channel o c = get_or o.channels c default_channel

-- What a frame has handed over on channel `c`, when it carries an ordering index.
unfoldable pub on_channel : ℕ → Frame → OrderedResult → List Frame
on_channel c f r = elim f.ordering_index [
  | some i ↦ if channel_of f == c then delivered r else []
  | none ↦ []
]

-- All that a history of frames, on any channels, hands over on channel `c`, and the end state.
unfoldable pub deliver : ℕ → OrderingChannels → List Frame → OrderingChannels × List Frame
deliver c o [] = (o, [])
deliver c o (f ∷ fs) =
    let (o', r) = handle_ordered o f in
    let (o'', later) = deliver c o' fs in (o'', on_channel c f r ++ later)

abbrev pub HasIndexSeq : Option Sequence24 → Type 0
HasIndexSeq (some i) = IsSeq i
HasIndexSeq none = Unit {0}

-- The decoder makes no other indices.
abbrev pub HasSeq : Frame → Type 0
HasSeq f = HasIndexSeq f.ordering_index

get_or-grow :
    (cs : List ChannelState) (n i : ℕ)
    → get_or (grow cs n) i default_channel ≡ get_or cs i default_channel
unfolding grow
get_or-grow cs n i = elim (Bool-cases (leb (length cs) n)) [
  | inl e ↦ rw e (get_or-append_replicate cs (n + 1 - length cs) i default_channel)
  | inr e ↦ rw e
]

length-grow : (cs : List ChannelState) (n : ℕ) → n < length (grow cs n)
unfolding grow
length-grow cs n = ground (
  arith,
  length-append cs (replicate (n + 1 - length cs) default_channel),
  length-replicate (n + 1 - length cs) default_channel,
)

pub default-IsChannel : (m : ℕ) → IsChannel m default_channel
default-IsChannel m = record {
  expected = omega arith;
  sorted = tt;
  waiting = tt;
  bounded = omega arith;
}

pub grow-AreChannels :
    (m : ℕ) (cs : List ChannelState) (n : ℕ) → All (IsChannel m) cs → All (IsChannel m) (grow cs n)
unfolding grow
grow-AreChannels m cs n h = elim (Bool-cases (leb (length cs) n)) [
  | inl e ↦ rw e (
      All-append (IsChannel m) cs _ h
        (All-replicate (IsChannel m) (n + 1 - length cs) default_channel (default-IsChannel m)))
  | inr e ↦ rw e h
]

pub new-AreChannels : (k m g : ℕ) → AreChannels (new k m g)
unfolding new
new-AreChannels k m g = All-replicate _ _ default_channel (default-IsChannel _)

abbrev pub Handled : OrderingChannels → ℕ → Frame → OrderingChannels × OrderedResult → Type 0
Handled o c f r =
    AreChannels r.0
    × Consecutive (channel o c).expected_order (on_channel c f r.1) (channel r.0 c).expected_order

on_channel_lem :
    (c i : ℕ) (f : Frame) (r : OrderedResult)
    → f.ordering_index ≡ some i
    → on_channel c f r ≡ (if channel_of f == c then delivered r else [])
unfolding on_channel
on_channel_lem c i f r e = ground (arith, e)

-- A result on one channel, seen from channel `c`.
seen_from :
    (b : Bool) (s s' : ChannelState) (r : OrderedResult)
    → (b ≡ true → Consecutive s.expected_order (delivered r) s'.expected_order)
    → Consecutive s.expected_order
        (if b then delivered r else [])
        (if b then s' else s).expected_order
seen_from true s s' r h = h refl
seen_from false s s' r h = refl

handle_indexed-Handled :
    (o : OrderingChannels) (c i : ℕ) (f : Frame)
    → AreChannels o
    → IsSeq i
    → f.ordering_index ≡ some i
    → Handled o c f (handle_indexed o i f)
unfolding handle_indexed
handle_indexed-Handled o c i f v h e =
    let idx = channel_of f in
    let cs = grow o.channels idx in
    let s = get_or cs idx default_channel in
    let m = o.max_pending_per_channel in
    let grown = grow-AreChannels m o.channels idx v in
    let kept =
      order_in-Kept o.max_gap m s i f
        (All-get_or (IsChannel m) cs idx default_channel grown (default-IsChannel m)) h e in
    let r = order_in o.max_gap m s i f in
    let here : (idx == c) ≡ true → s ≡ channel o c =
      λ t. get_or-grow o.channels idx idx ∙ ap (channel o) (ground arith) in
    (
      All-set (IsChannel m) cs idx r.0 grown kept.0,
      rw
          (
            on_channel_lem c i f r.1 e,
            get_or-set cs idx c r.0 default_channel (length-grow o.channels idx),
            get_or-grow o.channels idx c,
          )
          (seen_from (idx == c) (channel o c) r.0 r.1 (λ t.
            subst (λ x. Consecutive x.expected_order (delivered r.1) r.0.expected_order) (here t)
              kept.1)),
    )

on_channel-none :
    (c : ℕ) (f : Frame) (r : OrderedResult) → f.ordering_index ≡ none → on_channel c f r ≡ []
unfolding on_channel
on_channel-none c f r e = ground (arith, e)

unindexed_lem :
    (o : OrderingChannels) (f : Frame)
    → f.ordering_index ≡ none
    → handle_ordered o f ≡ (o, ready (f ∷ []))
unfolding handle_ordered
unindexed_lem o f e = ap (dispatch o f) e

indexed_lem :
    (o : OrderingChannels) (f : Frame) (i : ℕ)
    → f.ordering_index ≡ some i
    → handle_ordered o f ≡ handle_indexed o i f
unfolding handle_ordered
indexed_lem o f i e = ap (dispatch o f) e

-- A frame keeps every channel well formed, and hands over, on each channel, the frames from the
-- expected index on; on the other channels nothing moves.
pub handle_ordered-Handled :
    (o : OrderingChannels) (c : ℕ) (f : Frame)
    → AreChannels o
    → HasSeq f
    → Handled o c f (handle_ordered o f)
handle_ordered-Handled o c f v h = elim (Option-cases f.ordering_index) [
  | inl e ↦ subst (Handled o c f) (sym (unindexed_lem o f e)) (
    v,
    subst (λ l. Consecutive (channel o c).expected_order l (channel o c).expected_order)
        (sym (on_channel-none c f (ready (f ∷ [])) e)) refl,
  )
  | inr (i, e) ↦
      subst (Handled o c f) (sym (indexed_lem o f i e))
        (handle_indexed-Handled o c i f v (subst HasIndexSeq e h) e)
]

Consecutive-append :
    (a : ℕ) (xs : List Frame) (b : ℕ) (ys : List Frame) (c : ℕ)
    → Consecutive a xs b
    → Consecutive b ys c
    → Consecutive a (xs ++ ys) c
Consecutive-append a [] b ys c h k = subst (λ x. Consecutive x ys c) (sym h) k
Consecutive-append a (x ∷ xs) b ys c h k = (h.0, Consecutive-append (next a) xs b ys c h.1 k)

-- In every history, whatever the other channels do in between, the frames handed over on a channel
-- carry the indices that follow the channel's expected index, one after the other, with none left
-- out and none twice, and end just before the expected index of the end state.
pub deliver_in_order :
    (c : ℕ) (o : OrderingChannels) (fs : List Frame)
    → AreChannels o
    → All HasSeq fs
    → Consecutive
        (channel o c).expected_order
        (deliver c o fs).1
        (channel (deliver c o fs).0 c).expected_order
unfolding deliver
deliver_in_order c o [] v h = refl
deliver_in_order c o (f ∷ fs) v h =
    let step = handle_ordered-Handled o c f v h.0 in
    Consecutive-append _ (on_channel c f (handle_ordered o f).1) _ _ _ step.1
      (deliver_in_order c (handle_ordered o f).0 fs step.0 h.1)
