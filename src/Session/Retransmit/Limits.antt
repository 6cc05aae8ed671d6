-- ===== src/Session/Retransmit/Limits.antt =====
-- What is sent again.
use raknet_rust.Common.{
  ℕ, ◌+◌, ◌≤◌, ◌≡◌, refl, sym, ap, ◌∙◌, subst, inl, inr, Bool, true, false, not, ◌||◌, ◌==◌, ltb,
  leb, if◌then◌else◌, List, [], ◌∷◌, ◌++◌, length, length-append, All, Option, none, some,
  Bool-cases, Option-cases, arith,
}
use raknet_rust.Common.Map.{lookup}
use raknet_rust.Common.Floats.{Floats}
use raknet_rust.Protocol.Datagram.{Datagram, encoded_size}
use raknet_rust.Session.Congestion.{on_timeout}
use raknet_rust.Session.Sent.{TrackedDatagram, Sent, update_sent, is_empty}
use raknet_rust.Session.Retransmit.{
  select_due, resent, resend_all, resend, collect_resendable, sum_datagrams,
}

abbrev pub Table : Type 0
Table = List (ℕ × TrackedDatagram)

-- Every entry is the one that is found under its number.
abbrev pub IsTable : Table → Type 0
IsTable m = All (λ p. lookup p.0 m ≡ some p.1) m

abbrev datagram_of : Option TrackedDatagram → Option Datagram
datagram_of none = none
datagram_of (some v) = some v.datagram

abbrev pub datagram_at : Table → ℕ → Option Datagram
datagram_at m k = datagram_of (lookup k m)

-- A datagram that may be sent again, and whose time has come.
pub record IsDue (m : Table) (now : ℕ) (g : Datagram) : Type 0 where
  pub sequence : ℕ
  pub entry : TrackedDatagram
  pub sent : lookup sequence m ≡ some entry
  pub datagram : entry.datagram ≡ g
  pub resendable : entry.resendable ≡ true
  pub due : entry.next_send ≤ now

-- The numbers `ks` stand for the datagrams `gs`.
abbrev Stands : Table → ℕ → List ℕ → List Datagram → Type 0
Stands m now [] [] = Unit {0}
Stands m now (k ∷ ks) (g ∷ gs) = (datagram_at m k ≡ some g) × IsDue m now g × Stands m now ks gs
Stands m now [] (g ∷ gs) = ⊥
Stands m now (k ∷ ks) [] = ⊥

sum_datagrams-append :
    (xs ys : List Datagram) → sum_datagrams (xs ++ ys) ≡ sum_datagrams xs + sum_datagrams ys
sum_datagrams-append [] ys = omega arith
sum_datagrams-append (x ∷ xs) ys = omega (arith, sum_datagrams-append xs ys)

Stands-append :
    (m : Table) (now : ℕ) (ks js : List ℕ) (gs hs : List Datagram)
    → Stands m now ks gs
    → Stands m now js hs
    → Stands m now (ks ++ js) (gs ++ hs)
Stands-append m now [] js [] hs q r = r
Stands-append m now (k ∷ ks) js (g ∷ gs) hs q r = (q.0, q.1, Stands-append m now ks js gs hs q.2 r)
Stands-append m now [] js (g ∷ gs) hs q r = absurd q
Stands-append m now (k ∷ ks) js [] hs q r = absurd q

record IsSelected (m : Table) (now max_count max_bytes : ℕ) (ks : List ℕ) : Type 0 where
  datagrams : List Datagram
  stands : Stands m now ks datagrams
  count : length ks ≤ max_count
  bytes : sum_datagrams datagrams ≤ max_bytes

select_due-IsSelected :
    (whole : Table) (now max_count max_bytes : ℕ) (m : Table) (total : ℕ) (selected : List ℕ)
    (timeout : Bool)
    → All (λ p. lookup p.0 whole ≡ some p.1) m
    → (v : IsSelected whole now max_count max_bytes selected) → sum_datagrams v.datagrams ≡ total
    → IsSelected whole now max_count max_bytes
        (select_due now max_count max_bytes m total selected timeout).0
unfolding select_due
select_due-IsSelected whole now mc mb [] total selected timeout h v e = v
select_due-IsSelected whole now mc mb ((k, w) ∷ m) total selected timeout h v e =
    elim (Bool-cases (leb mc (length selected))) [
      | inl t ↦ rw (select_due, t) v
      | inr f ↦ elim (Bool-cases (not w.resendable || ltb now w.next_send)) [
        | inl t ↦
            rw (select_due, f, t)
              (select_due-IsSelected whole now mc mb m total selected timeout h.1 v e)
        | inr g ↦ elim (Bool-cases (ltb mb (total + encoded_size w.datagram))) [
          | inl t ↦ rw (select_due, f, g, t) v
          | inr l ↦
              let due : IsDue whole now w.datagram = record {
                sequence = k;
                entry = w;
                sent = h.0;
                datagram = refl;
                resendable = ground arith;
                due = ground arith;
              } in
              let one : Stands whole now (k ∷ []) (w.datagram ∷ []) =
                (ap datagram_of h.0, due, tt) in
              let sum = sum_datagrams-append v.datagrams (w.datagram ∷ []) in
              rw (select_due, f, g, l)
                (select_due-IsSelected whole now mc mb m (total + encoded_size w.datagram)
                  (selected ++ (k ∷ [])) (timeout || not w.nack_resend_pending) h.1
                  record {
                    datagrams = v.datagrams ++ (w.datagram ∷ []);
                    stands = Stands-append whole now selected (k ∷ []) v.datagrams _ v.stands one;
                    count = ground (arith, length-append selected (k ∷ []));
                    bytes = ground (arith, sum, e);
                  }
                  (omega (arith, sum, e)))
        ]
      ]
    ]

lookup-update_sent :
    (k i : ℕ) (v w : TrackedDatagram) (m : Table)
    → lookup k m ≡ some w
    → lookup i (update_sent k v m) ≡ (if k == i then some v else lookup i m)
unfolding lookup update_sent
lookup-update_sent k i v w [] e = cc
lookup-update_sent k i v w ((j, x) ∷ m) e = ground (arith, lookup-update_sent k i v w m)

-- The same datagrams under the same numbers.
abbrev pub SameDatagrams : Table → Table → Type 0
SameDatagrams m m' = (k : ℕ) → datagram_at m' k ≡ datagram_at m k

resent-SameDatagrams :
    (k now at : ℕ) (w : TrackedDatagram) (m : Table)
    → lookup k m ≡ some w
    → SameDatagrams m (update_sent k (resent w now at) m)
unfolding resent
resent-SameDatagrams k now at w m e i = elim (Bool-cases (k == i)) [
  | inl t ↦
      let here : lookup i m ≡ some w = ap (λ x. lookup x m) (ground arith) ∙ e in
      let new : lookup i (update_sent k (resent w now at) m) ≡ some (resent w now at) =
        lookup-update_sent k i _ w m e ∙ rw t refl in
      ap datagram_of new ∙ sym (ap datagram_of here)
  | inr f ↦
      let old : lookup i (update_sent k (resent w now at) m) ≡ lookup i m =
        lookup-update_sent k i _ w m e ∙ rw f refl in
      ap datagram_of old
]

missing : (m : Table) (k : ℕ) (g : Datagram) → lookup k m ≡ none → datagram_at m k ≡ some g → ⊥
missing m k g n e = let gone : none ≡ some g = sym (ap datagram_of n) ∙ e in cc

found :
    (m : Table) (k : ℕ) (g : Datagram) (w : TrackedDatagram)
    → lookup k m ≡ some w
    → datagram_at m k ≡ some g
    → w.datagram ≡ g
found m k g w f e = let both : some w.datagram ≡ some g = sym (ap datagram_of f) ∙ e in cc

resend_all_lem :
    (m m' : Table) (now at due : ℕ) (ks : List ℕ) (gs : List Datagram)
    → Stands m due ks gs
    → SameDatagrams m m'
    → ((resend_all now at m' ks).1 ≡ gs) × SameDatagrams m (resend_all now at m' ks).0
unfolding resend_all
resend_all_lem m m' now at due [] (g ∷ gs) q same = absurd q
resend_all_lem m m' now at due (k ∷ ks) [] q same = absurd q
resend_all_lem m m' now at due [] [] q same = (refl, same)
resend_all_lem m m' now at due (k ∷ ks) (g ∷ gs) q same = elim (Option-cases (lookup k m')) [
  | inl n ↦ absurd (missing m' k g n (same k ∙ q.0))
  | inr (w, f) ↦
      let (out, kept) =
        resend_all_lem m (update_sent k (resent w now at) m') now at due ks gs q.2
          (λ i. resent-SameDatagrams k now at w m' f i ∙ same i) in
      let first = found m' k g w f (same k ∙ q.0) in
      rw (resend_all, f) (ap (λ t. w.datagram ∷ t) out ∙ ap (λ x. x ∷ gs) first, kept)
]

Stands-All :
    (m : Table) (now : ℕ) (ks : List ℕ) (gs : List Datagram)
    → Stands m now ks gs
    → All (IsDue m now) gs × (length gs ≡ length ks)
Stands-All m now [] [] q = (tt, refl)
Stands-All m now (k ∷ ks) (g ∷ gs) q =
    let (due, n) = Stands-All m now ks gs q.2 in ((q.1, due), omega (arith, n))
Stands-All m now [] (g ∷ gs) q = absurd q
Stands-All m now (k ∷ ks) [] q = absurd q

module _ {F : Type 0} ⦃d : Floats F⦄ where
  kept_table :
      (b : Bool) (s s' : Sent F)
      → s'.sent_datagrams ≡ s.sent_datagrams
      → (if b then s' else s).sent_datagrams ≡ s.sent_datagrams
  kept_table true s s' e = e
  kept_table false s s' e = refl

  resend_lem :
      (s : Sent F) (m : Table) (now mc mb : ℕ) (selected : List ℕ)
      → s.sent_datagrams ≡ m
      → IsSelected m now mc mb selected
      → let (s', out) = resend s now selected in
        (length out ≤ mc)
        × (sum_datagrams out ≤ mb)
        × All (IsDue m now) out
        × SameDatagrams m s'.sent_datagrams
  unfolding resend
  resend_lem s m now mc mb selected e v =
      let at = now + s.congestion.resend_rto in
      let (out, kept) =
        resend_all_lem m s.sent_datagrams now at now selected v.datagrams v.stands
          (λ k. ap (λ t. datagram_at t k) e) in
      let (due, n) = Stands-All m now selected v.datagrams v.stands in
      (
        subst (λ gs. length gs ≤ mc) (sym out) (omega (arith, n, v.count)),
        subst (λ gs. sum_datagrams gs ≤ mb) (sym out) v.bytes,
        subst (λ gs. All (IsDue m now) gs) (sym out) due,
        kept,
      )

  -- What is sent again keeps the limits of datagrams and bytes, and all of it is in the table of sent
  -- datagrams, may be sent again and was due. The table keeps all its datagrams under their numbers.
  pub collect_resendable_lem :
      (s : Sent F) (now max_count max_bytes : ℕ)
      → IsTable s.sent_datagrams
      → let (s', out) = collect_resendable s now max_count max_bytes in
        (length out ≤ max_count)
        × (sum_datagrams out ≤ max_bytes)
        × All (IsDue s.sent_datagrams now) out
        × SameDatagrams s.sent_datagrams s'.sent_datagrams
  unfolding collect_resendable
  collect_resendable_lem s now mc mb h =
      let m = s.sent_datagrams in
      let start : IsSelected m now mc mb [] = record {
        datagrams = [];
        stands = tt;
        count = omega arith;
        bytes = omega arith;
      } in
      let chosen = select_due-IsSelected m now mc mb m 0 [] false h start refl in
      let (selected, timeout) = select_due now mc mb m 0 [] false in
      let some_out =
        resend_lem (if timeout then record s { congestion = on_timeout s.congestion now } else s) m
          now mc mb selected (kept_table timeout s _ refl) chosen in
      elim (Bool-cases (is_empty selected)) [
        | inl t ↦ rw t (omega arith, omega arith, tt, λ k. refl)
        | inr f ↦ rw f some_out
      ]
