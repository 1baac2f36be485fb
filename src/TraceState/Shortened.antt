-- ===== src/TraceState/Shortened.antt =====
-- The header that `toString` cuts down: what is kept, in which order it is dropped, and its length.
use mathlib.Core.List.{Sublist}
use mathlib.Core.List.Sublist
use otel_php_rust.Prelude.{
  ℕ, ◌≤◌, ◌<◌, ◌≡◌, refl, ap, ◌∙◌, ◌⊎◌, inl, inr, true, false, some, List, [], ◌∷◌, arith, length,
  take, drop, Bool-cases, append-nil,
}
use otel_php_rust.Prelude.Signed.{ℤ, pos, i64_max}
use otel_php_rust.TraceState.{Member, TraceStateState, header, header_of}
use otel_php_rust.TraceState.Limit.{
  exceeds, total_length, drop_members, drop_passes, limited_members, limited_header,
}
use otel_php_rust.TraceState.Dropping.{
  short, short-zero, Dropped, drop_members-Dropped, length-header_of,
}

take_all : (ms : List Member) → take (length ms) ms ≡ ms
take_all [] = refl
take_all (m ∷ ms) = ap (◌∷◌ m) (take_all ms)

drop_all : (ms : List Member) → drop (length ms) ms ≡ []
drop_all [] = refl
drop_all (m ∷ ms) = drop_all ms

-- A pass over the whole list keeps the short members alone, unless it stopped early.
pass-ends :
    (limit : ℤ) (t : ℕ) (ms : List Member) (r : List Member × ℕ)
    → Dropped limit t (length ms) ms r
    → exceeds r.1 limit ≡ true
    → r.0 ≡ short t ms
pass-ends limit t ms r d over = elim d.ends [
  | inl fits ↦ absurd (cc (over, fits))
  | inr q ↦ q ∙ rw (take_all ms, drop_all ms) (append-nil (short t ms))
]

-- What `toString` may keep of the members `ms` under a limit.
record Shortens (limit : ℤ) (ms kept : List Member) : Type 0 where
  -- Members are dropped, and the others stay in order.
  in_order : Sublist kept ms
  -- The header fits, or nothing is left.
  fits : (kept ≡ []) ⊎ (exceeds (total_length kept) limit ≡ false)
  -- A list that fits is left alone.
  whole : exceeds (total_length ms) limit ≡ false → kept ≡ ms
  -- No member of at most 128 bytes is dropped where dropping the longer ones is enough.
  long_first : exceeds (total_length (short 128 ms)) limit ≡ false → short 128 kept ≡ short 128 ms

module _ (limit : ℤ) (ms : List Member) (over : exceeds (total_length ms) limit ≡ true) where
  first_pass : List Member × ℕ
  first_pass = drop_members limit 128 (length ms) ms (total_length ms)

  first_pass-Dropped : Dropped limit 128 (length ms) ms first_pass
  unfolding first_pass
  first_pass-Dropped = drop_members-Dropped limit 128 (length ms) ms (total_length ms) refl

  first_pass-Shortens : exceeds first_pass.1 limit ≡ false → Shortens limit ms first_pass.0
  first_pass-Shortens fits = record {
    in_order = first_pass-Dropped.kept;
    fits = inr (rw (← first_pass-Dropped.tracked) fits);
    whole = λ h. absurd (cc (over, h));
    long_first = λ h. first_pass-Dropped.shorts;
  }

  second_pass : List Member × ℕ
  second_pass = drop_members limit 0 (length first_pass.0) first_pass.0 first_pass.1

  second_pass-Dropped : Dropped limit 0 (length first_pass.0) first_pass.0 second_pass
  unfolding second_pass
  second_pass-Dropped =
      drop_members-Dropped limit 0 (length first_pass.0) first_pass.0 first_pass.1
        first_pass-Dropped.tracked

  second_pass-Shortens : exceeds first_pass.1 limit ≡ true → Shortens limit ms second_pass.0
  second_pass-Shortens more = record {
    in_order = Sublist.trans second_pass-Dropped.kept first_pass-Dropped.kept;
    fits = elim (Bool-cases (exceeds second_pass.1 limit)) [
      | inl still ↦ inl (
          pass-ends limit 0 first_pass.0 second_pass second_pass-Dropped still
          ∙ short-zero first_pass.0)
      | inr fits ↦ inr (rw (← second_pass-Dropped.tracked) fits)
    ];
    whole = λ h. absurd (cc (over, h));
    long_first = λ h.
        let e = pass-ends limit 128 ms first_pass first_pass-Dropped more in
        absurd (cc (more, first_pass-Dropped.tracked, e, h));
  }

  drop_passes-Shortens : Shortens limit ms (drop_passes limit (128 ∷ 0 ∷ []) ms (total_length ms))
  unfolding drop_passes first_pass second_pass
  drop_passes-Shortens = elim (Bool-cases (exceeds first_pass.1 limit)) [
    | inl more ↦ elim (Bool-cases (exceeds second_pass.1 limit)) [
      | inl still ↦ rw (more, still) (second_pass-Shortens more)
      | inr fits ↦ rw (more, fits) (second_pass-Shortens more)
    ]
    | inr fits ↦ rw fits (first_pass-Shortens fits)
  ]

limited_members-Shortens :
    (members : List Member) (limit : ℤ) → Shortens limit members (limited_members members limit)
unfolding limited_members
limited_members-Shortens members limit = elim (Bool-cases (exceeds (total_length members) limit)) [
  | inl over ↦ rw over (drop_passes-Shortens limit members over)
  | inr fits ↦ rw fits (record {
    in_order = Sublist.refl members;
    fits = inr fits;
    whole = λ _. refl;
    long_first = λ _. refl;
  })
]

-- `toString` with a limit writes a sublist of the members, in their order, and either nothing is
-- left or the header no longer exceeds the limit.
pub limited_header-sublist :
    (state : TraceStateState) (limit : ℤ)
    → (kept : List Member) × (limited_header state (some limit)
        ≡ header (record { members = kept }))
      × Sublist kept state.members
      × ((kept ≡ []) ⊎ (exceeds (length (limited_header state (some limit))) limit ≡ false))
unfolding limited_header header
limited_header-sublist state limit =
    let kept = limited_members state.members limit in
    let s = limited_members-Shortens state.members limit in
    (kept, refl, s.in_order, rw (length-header_of kept) s.fits)

-- A header that does not exceed the limit is written whole.
pub limited_header-whole :
    (state : TraceStateState) (limit : ℤ)
    → exceeds (length (header state)) limit ≡ false
    → limited_header state (some limit) ≡ header state
unfolding limited_header header
limited_header-whole state limit h =
    ap header_of (
      (limited_members-Shortens state.members limit).whole
        (rw (← length-header_of state.members) h))

-- Where the members of at most 128 bytes fit by themselves, none of them is dropped.
pub limited_members-long_first :
    (members : List Member) (limit : ℤ)
    → exceeds (length (header_of (short 128 members))) limit ≡ false
    → short 128 (limited_members members limit) ≡ short 128 members
limited_members-long_first members limit h =
    (limited_members-Shortens members limit).long_first
      (rw (← length-header_of (short 128 members)) h)

length-le_of_fits :
    (n : ℕ) (members : List Member)
    → n < i64_max
    → (members ≡ []) ⊎ (exceeds (total_length members) (pos n) ≡ false)
    → total_length members ≤ n
length-le_of_fits n members h (inl e) = rw e (omega arith)
length-le_of_fits n members h (inr fits) = ground arith

-- Under a limit from 0 to below `i64::MAX` the header is at most that long.
pub length-limited_header-le :
    (state : TraceStateState) (n : ℕ)
    → n < i64_max
    → length (limited_header state (some (pos n))) ≤ n
unfolding limited_header header
length-limited_header-le state n h =
    rw (length-header_of (limited_members state.members (pos n)))
      (length-le_of_fits n _ h (limited_members-Shortens state.members (pos n)).fits)
