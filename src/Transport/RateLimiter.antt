-- ===== src/Transport/RateLimiter.antt =====
-- src/transport/rate_limiter.rs: which addresses may send. An address is a number, an instant and a
-- duration are nanoseconds, and the maps and the set are maps by address. The processing budget, whose
-- token buckets are floating-point numbers, is left out.
pub mod Bounds
pub mod History
pub mod Operations
pub mod Log
pub mod Blocks
mod Tests
use raknet_rust.Common.{
  ℕ, ◌+◌, ◌-◌, max, Bool, true, false, ◌==◌, ltb, leb, if◌then◌else◌, List, [], ◌∷◌, length, Option,
  none, some,
}
use raknet_rust.Common.Int.{saturating_add}
use raknet_rust.Common.Map.{lookup, insert, remove}

pub data BlockReason : Type 0 where
  rate_exceeded manual handshake_heuristic cookie_mismatch_guard : BlockReason

pub data RateLimitDecision : Type 0 where
  allow global_limit_reached : RateLimitDecision
  ip_blocked : Bool → BlockReason → RateLimitDecision

pub record BlockState : Type 0 where
  pub blocked_until : Option ℕ
  pub reason : BlockReason

-- One counter for each reason.
pub record ReasonCounts : Type 0 where
  pub total : ℕ
  pub rate_exceeded_count : ℕ
  pub manual_count : ℕ
  pub handshake_heuristic_count : ℕ
  pub cookie_mismatch_guard_count : ℕ

pub record RateLimiterMetrics : Type 0 where
  pub global_limit_hits : ℕ
  pub ip_block_hits : ReasonCounts
  pub addresses_blocked : ReasonCounts
  pub addresses_unblocked : ℕ

pub record RateLimiter : Type 0 where
  pub window_start : ℕ
  pub window_count : ℕ
  pub per_ip_limit : ℕ
  pub global_limit : ℕ
  pub window : ℕ
  pub block_duration : ℕ
  pub ip_state : List (ℕ × ℕ)
  pub blocked : List (ℕ × BlockState)
  pub exceptions : List (ℕ × Unit {0})
  pub metrics : RateLimiterMetrics

abbrev pub min_rate_window : ℕ
min_rate_window = 1_000_000

abbrev pub min_block_duration : ℕ
min_block_duration = 1_000_000

unfoldable pub normalize_duration : ℕ → ℕ → ℕ
normalize_duration value minimum = if value == 0 then minimum else value

abbrev no_counts : ReasonCounts
no_counts = record {
  total = 0;
  rate_exceeded_count = 0;
  manual_count = 0;
  handshake_heuristic_count = 0;
  cookie_mismatch_guard_count = 0;
}

-- `now` stands for the clock.
unfoldable pub new : ℕ → ℕ → ℕ → ℕ → ℕ → RateLimiter
new per_ip_limit global_limit window block_duration now = record {
  window_start = now;
  window_count = 0;
  per_ip_limit = max per_ip_limit 1;
  global_limit = max global_limit 1;
  window = normalize_duration window min_rate_window;
  block_duration = normalize_duration block_duration min_block_duration;
  ip_state = [];
  blocked = [];
  exceptions = [];
  metrics = record {
    global_limit_hits = 0;
    ip_block_hits = no_counts;
    addresses_blocked = no_counts;
    addresses_unblocked = 0;
  };
}

abbrev count_reason : ReasonCounts → BlockReason → ReasonCounts
count_reason c rate_exceeded = record c {
  total = saturating_add c.total 1;
  rate_exceeded_count = saturating_add c.rate_exceeded_count 1;
}
count_reason c manual = record c {
  total = saturating_add c.total 1;
  manual_count = saturating_add c.manual_count 1;
}
count_reason c handshake_heuristic = record c {
  total = saturating_add c.total 1;
  handshake_heuristic_count = saturating_add c.handshake_heuristic_count 1;
}
count_reason c cookie_mismatch_guard = record c {
  total = saturating_add c.total 1;
  cookie_mismatch_guard_count = saturating_add c.cookie_mismatch_guard_count 1;
}

abbrev pub has {ℓ} : {V : Type ℓ} → ℕ → List (ℕ × V) → Bool
has ip m = elim (lookup ip m) [ some v ↦ true | none ↦ false ]

unfoldable pub record_ip_block_hit : RateLimiter → BlockReason → RateLimiter
record_ip_block_hit l reason = record l {
  metrics = record l.metrics { ip_block_hits = count_reason l.metrics.ip_block_hits reason };
}

unfoldable pub record_new_block : RateLimiter → BlockReason → RateLimiter
record_new_block l reason = record l {
  metrics = record l.metrics {
    addresses_blocked = count_reason l.metrics.addresses_blocked reason;
  };
}

unfoldable pub reset_window_state : RateLimiter → ℕ → RateLimiter
reset_window_state l now = record l { window_start = now; window_count = 0; ip_state = [] }

-- `duration_since` is 0 for a later start.
unfoldable pub rotate_window_if_needed : RateLimiter → ℕ → RateLimiter
rotate_window_if_needed l now =
    if ltb (now - l.window_start) l.window then l else reset_window_state l now

unfoldable pub is_expired : ℕ → BlockState → Bool
is_expired now s = elim s.blocked_until [ none ↦ false | some until ↦ leb until now ]

-- The blocks that stay, and how many are dropped.
unfoldable pub retain_blocks : ℕ → List (ℕ × BlockState) → List (ℕ × BlockState) × ℕ
retain_blocks now [] = ([], 0)
retain_blocks now ((ip, s) ∷ m) =
    let (kept, dropped) = retain_blocks now m in
    if is_expired now s then (kept, saturating_add dropped 1) else ((ip, s) ∷ kept, dropped)

unfoldable pub count_unblocked : RateLimiter → ℕ → RateLimiter
count_unblocked l n = record l {
  metrics = record l.metrics {
    addresses_unblocked = saturating_add l.metrics.addresses_unblocked n;
  };
}

unfoldable pub prune_expired_blocks : RateLimiter → ℕ → RateLimiter
prune_expired_blocks l now =
    let (kept, dropped) = retain_blocks now l.blocked in
    count_unblocked (record l { blocked = kept }) dropped

unfoldable pub tick : RateLimiter → ℕ → RateLimiter
tick l now = prune_expired_blocks (rotate_window_if_needed l now) now

-- A block until an instant, or for good; the reason of an older block is overwritten.
unfoldable pub set_block : RateLimiter → ℕ → Option ℕ → BlockReason → RateLimiter × Bool
set_block l ip until reason =
    let blocked = record l {
      blocked = insert ip record { blocked_until = until; reason = reason } l.blocked;
    } in
    if has ip l.exceptions
    then (l, false)
    else if has ip l.blocked
    then (blocked, false)
    else (record_new_block blocked reason, true)

unfoldable pub block_address_with_reason : RateLimiter → ℕ → BlockReason → RateLimiter × Bool
block_address_with_reason l ip reason = set_block l ip none reason

unfoldable pub block_address : RateLimiter → ℕ → RateLimiter × Bool
block_address l ip = block_address_with_reason l ip manual

unfoldable pub block_address_for_with_reason :
    RateLimiter → ℕ → ℕ → ℕ → BlockReason → RateLimiter × Bool
block_address_for_with_reason l ip now duration reason =
    set_block l ip (some (now + normalize_duration duration min_block_duration)) reason

unfoldable pub block_address_for : RateLimiter → ℕ → ℕ → ℕ → RateLimiter × Bool
block_address_for l ip now duration = block_address_for_with_reason l ip now duration manual

unfoldable pub unblock_address : RateLimiter → ℕ → RateLimiter × Bool
unblock_address l ip =
    if has ip l.blocked
    then (count_unblocked (record l { blocked = remove ip l.blocked }) 1, true)
    else (l, false)

unfoldable pub add_exception : RateLimiter → ℕ → RateLimiter
add_exception l ip = (unblock_address (record l { exceptions = insert ip tt l.exceptions }) ip).0

unfoldable pub remove_exception : RateLimiter → ℕ → RateLimiter
remove_exception l ip = record l { exceptions = remove ip l.exceptions }

unfoldable pub is_exception : RateLimiter → ℕ → Bool
is_exception l ip = has ip l.exceptions

-- How often an address was let in in this window.
unfoldable pub count_of : RateLimiter → ℕ → ℕ
count_of l ip = elim (lookup ip l.ip_state) [ some n ↦ n | none ↦ 0 ]

-- The entry of the address is made before its count is tested.
unfoldable pub check_count : RateLimiter → ℕ → ℕ → RateLimiter × RateLimitDecision
check_count l ip now =
    let count = count_of l ip in
    let entered = record l { ip_state = insert ip count l.ip_state } in
    let (blocked, newly_blocked) =
      block_address_for_with_reason entered ip now l.block_duration rate_exceeded in
    if leb l.per_ip_limit count
    then (record_ip_block_hit blocked rate_exceeded, ip_blocked newly_blocked rate_exceeded)
    else (
      record l { ip_state = insert ip (count + 1) l.ip_state; window_count = l.window_count + 1 },
      allow,
    )

unfoldable pub count_global : RateLimiter → RateLimiter
count_global l = record l {
  metrics = record l.metrics { global_limit_hits = saturating_add l.metrics.global_limit_hits 1 };
}

unfoldable pub check_blocked :
    RateLimiter → ℕ → ℕ → Option BlockState → RateLimiter × RateLimitDecision
check_blocked l ip now (some s) = (record_ip_block_hit l s.reason, ip_blocked false s.reason)
check_blocked l ip now none =
    if leb l.global_limit l.window_count
    then (count_global l, global_limit_reached)
    else check_count l ip now

unfoldable pub check_ticked : RateLimiter → ℕ → ℕ → RateLimiter × RateLimitDecision
check_ticked l ip now =
    if has ip l.exceptions
    then (record l { window_count = l.window_count + 1 }, allow)
    else check_blocked l ip now (lookup ip l.blocked)

unfoldable pub check : RateLimiter → ℕ → ℕ → RateLimiter × RateLimitDecision
check l ip now = check_ticked (tick l now) ip now

unfoldable pub set_per_ip_limit : RateLimiter → ℕ → ℕ → RateLimiter
set_per_ip_limit l per_ip_limit now =
    reset_window_state (record l { per_ip_limit = max per_ip_limit 1 }) now

unfoldable pub set_global_limit : RateLimiter → ℕ → ℕ → RateLimiter
set_global_limit l global_limit now =
    reset_window_state (record l { global_limit = max global_limit 1 }) now

unfoldable pub set_window : RateLimiter → ℕ → ℕ → RateLimiter
set_window l window now =
    reset_window_state (record l { window = normalize_duration window min_rate_window }) now

unfoldable pub set_block_duration : RateLimiter → ℕ → RateLimiter
set_block_duration l block_duration = record l {
  block_duration = normalize_duration block_duration min_block_duration;
}

unfoldable pub update_limits : RateLimiter → ℕ → ℕ → ℕ → ℕ → ℕ → RateLimiter
update_limits l per_ip_limit global_limit window block_duration now =
    reset_window_state
      record l {
        per_ip_limit = max per_ip_limit 1;
        global_limit = max global_limit 1;
        window = normalize_duration window min_rate_window;
        block_duration = normalize_duration block_duration min_block_duration;
      }
      now
