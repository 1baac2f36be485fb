-- ===== src/TraceState/Dropping.antt =====
-- One pass of the loop of `limited_header`, and the length that it keeps track of.
use mathlib.Core.List.{Sublist}
use mathlib.Core.List.Sublist
use otel_php_rust.Prelude.{
  ℕ, zero, suc, ◌+◌, ◌-◌, ◌<◌, ◌≡◌, refl, sym, ap, ◌∙◌, ◌⊎◌, inl, inr, true, false, none, some,
  List, [], ◌∷◌, ◌++◌, map, arith, if◌then◌else◌, length, leb, get_elem?, remove, take, drop, sum,
  is_empty, Bool-cases, Option-cases, append_assoc, append-nil, length-append, length-remove,
}
use otel_php_rust.Prelude.Signed.{ℤ}
use otel_php_rust.TraceState.{Member, header_of, join_members, print_member}
use otel_php_rust.TraceState.Limit.{exceeds, entry_length, total_length, drop_members}

-- The members of at most `threshold` bytes.
abbrev pub short : ℕ → List Member → List Member
short threshold [] = []
short threshold (m ∷ rest) =
    let kept = short threshold rest in if leb (entry_length m) threshold then m ∷ kept else kept

length-print : (m : Member) → length (print_member m) ≡ entry_length m
length-print (key, value) = omega (arith, length-append key (b'=' ∷ value))

length-join :
    (m : Member) (rest : List Member)
    → length (join_members m rest) ≡ sum (map entry_length (m ∷ rest)) + length rest
unfolding join_members
length-join m [] = omega (arith, length-print m)
length-join m (n ∷ rest) = omega (
  arith,
  length-append (print_member m) (b',' ∷ join_members n rest),
  length-print m,
  length-join n rest,
)

-- The length that `toString` keeps track of is that of the header.
pub length-header_of : (members : List Member) → length (header_of members) ≡ total_length members
unfolding header_of
length-header_of [] = omega arith
length-header_of (m ∷ rest) = omega (arith, length-join m rest)

short-append : (t : ℕ) (xs ys : List Member) → short t (xs ++ ys) ≡ short t xs ++ short t ys
short-append t [] ys = refl
short-append t (m ∷ xs) ys = ground (arith, short-append t xs ys)

short_idem : (t : ℕ) (xs : List Member) → short t (short t xs) ≡ short t xs
short_idem t [] = refl
short_idem t (m ∷ xs) = ground (arith, short_idem t xs)

-- No member is empty: it has its `=` at least.
pub short-zero : (xs : List Member) → short 0 xs ≡ []
short-zero [] = refl
short-zero ((key, value) ∷ xs) = ground (arith, short-zero xs)

module _ {m : Member} where
  take-suc :
      (ms : List Member) (i : ℕ) → get_elem? ms i ≡ some m → take (suc i) ms ≡ take i ms ++ m ∷ []
  take-suc [] i e = cc
  take-suc (x ∷ ms) zero e = ground arith
  take-suc (x ∷ ms) (suc i) e = ap (◌∷◌ x) (take-suc ms i e)

  drop-suc : (ms : List Member) (i : ℕ) → get_elem? ms i ≡ some m → drop i ms ≡ m ∷ drop (suc i) ms
  drop-suc [] i e = cc
  drop-suc (x ∷ ms) zero e = ground arith
  drop-suc (x ∷ ms) (suc i) e = drop-suc ms i e

  remove-take-drop :
      (ms : List Member) (i : ℕ)
      → get_elem? ms i ≡ some m
      → remove ms i ≡ take i ms ++ drop (suc i) ms
  remove-take-drop [] i e = cc
  remove-take-drop (x ∷ ms) zero e = refl
  remove-take-drop (x ∷ ms) (suc i) e = ap (◌∷◌ x) (remove-take-drop ms i e)

  take-remove :
      (ms : List Member) (i : ℕ) → get_elem? ms i ≡ some m → take i (remove ms i) ≡ take i ms
  take-remove [] i e = cc
  take-remove (x ∷ ms) zero e = refl
  take-remove (x ∷ ms) (suc i) e = ap (◌∷◌ x) (take-remove ms i e)

  drop-remove :
      (ms : List Member) (i : ℕ) → get_elem? ms i ≡ some m → drop i (remove ms i) ≡ drop (suc i) ms
  drop-remove [] i e = cc
  drop-remove (x ∷ ms) zero e = refl
  drop-remove (x ∷ ms) (suc i) e = drop-remove ms i e

  sum-remove :
      (ms : List Member) (i : ℕ)
      → get_elem? ms i ≡ some m
      → sum (map entry_length (remove ms i)) + entry_length m ≡ sum (map entry_length ms)
  sum-remove [] i e = cc
  sum-remove (x ∷ ms) zero e = ground arith
  sum-remove (x ∷ ms) (suc i) e = omega (arith, sum-remove ms i e)

  lt_of_get : (ms : List Member) (i : ℕ) → get_elem? ms i ≡ some m → i < length ms
  lt_of_get [] i e = cc
  lt_of_get (x ∷ ms) zero e = omega arith
  lt_of_get (x ∷ ms) (suc i) e = omega (arith, lt_of_get ms i e)

  sublist-remove : (ms : List Member) (i : ℕ) → get_elem? ms i ≡ some m → Sublist (remove ms i) ms
  sublist-remove [] i e = cc
  sublist-remove (x ∷ ms) zero e = Sublist.cons x (Sublist.refl ms)
  sublist-remove (x ∷ ms) (suc i) e = Sublist.cons-cons x (sublist-remove ms i e)

  -- A removed member takes its bytes and one comma with it, if another member is left.
  total_length-remove :
      (ms : List Member) (i : ℕ)
      → get_elem? ms i ≡ some m
      → total_length (remove ms i)
        ≡ total_length ms - (entry_length m + (if is_empty (remove ms i) then 0 else 1))
  total_length-remove ms i e =
      elim (remove ms i)
          as (λ r.
            sum (map entry_length r) + entry_length m ≡ sum (map entry_length ms)
            → length r + 1 ≡ length ms
            → total_length r ≡ total_length ms - (entry_length m + (if is_empty r then 0 else 1))) [
              | [] ↦ λ s l. omega arith
              | x ∷ r ↦ λ s l. omega arith
            ]
        (sum-remove ms i e) (length-remove ms i (lt_of_get ms i e))

take_end : (ms : List Member) (i : ℕ) → get_elem? ms i ≡ none → take (suc i) ms ≡ take i ms
take_end [] zero e = refl
take_end [] (suc i) e = refl
take_end (x ∷ ms) zero e = cc
take_end (x ∷ ms) (suc i) e = ap (◌∷◌ x) (take_end ms i e)

drop_end : (ms : List Member) (i : ℕ) → get_elem? ms i ≡ none → drop (suc i) ms ≡ drop i ms
drop_end [] zero e = refl
drop_end [] (suc i) e = refl
drop_end (x ∷ ms) zero e = cc
drop_end (x ∷ ms) (suc i) e = drop_end ms i e

-- What a pass over the members below `index` does with the list and its length.
pub record Dropped (limit : ℤ) (t index : ℕ) (ms : List Member) (r : List Member × ℕ) : Type 0 where
  pub tracked : r.1 ≡ total_length r.0
  pub kept : Sublist r.0 ms
  pub shorts : short t r.0 ≡ short t ms
  pub ends : (exceeds r.1 limit ≡ false) ⊎ (r.0 ≡ short t (take index ms) ++ drop index ms)

module _ (limit : ℤ) (t : ℕ) where
  Dropped-end :
      (i : ℕ) (ms : List Member) (r : List Member × ℕ)
      → get_elem? ms i ≡ none
      → Dropped limit t i ms r
      → Dropped limit t (suc i) ms r
  Dropped-end i ms r e d = record {
    tracked = d.tracked;
    kept = d.kept;
    shorts = d.shorts;
    ends = rw (take_end ms i e, drop_end ms i e) d.ends;
  }

  short-take_small :
      (i : ℕ) (ms : List Member) (m : Member)
      → get_elem? ms i ≡ some m
      → leb (entry_length m) t ≡ true
      → short t (take (suc i) ms) ++ drop (suc i) ms ≡ short t (take i ms) ++ drop i ms
  short-take_small i ms m e small =
      rw (take-suc ms i e, short-append t (take i ms) (m ∷ []), drop-suc ms i e)
        (rw small (append_assoc (short t (take i ms)) (m ∷ []) (drop (suc i) ms)))

  short-take_big :
      (i : ℕ) (ms : List Member) (m : Member)
      → get_elem? ms i ≡ some m
      → leb (entry_length m) t ≡ false
      → short t (take (suc i) ms) ≡ short t (take i ms)
  short-take_big i ms m e big =
      rw (take-suc ms i e, short-append t (take i ms) (m ∷ []))
        (rw big (append-nil (short t (take i ms))))

  Dropped-short :
      (i : ℕ) (ms : List Member) (r : List Member × ℕ) (m : Member)
      → get_elem? ms i ≡ some m
      → leb (entry_length m) t ≡ true
      → Dropped limit t i ms r
      → Dropped limit t (suc i) ms r
  Dropped-short i ms r m e small d = record {
    tracked = d.tracked;
    kept = d.kept;
    shorts = d.shorts;
    ends = elim d.ends [
      | inl fits ↦ inl fits
      | inr q ↦ inr (q ∙ sym (short-take_small i ms m e small))
    ];
  }

  short-remove :
      (i : ℕ) (ms : List Member) (m : Member)
      → get_elem? ms i ≡ some m
      → leb (entry_length m) t ≡ false
      → short t (remove ms i) ≡ short t ms
  short-remove i [] m e big = cc
  short-remove zero (x ∷ ms) m e big = ground arith
  short-remove (suc i) (x ∷ ms) m e big = ground (arith, short-remove i ms m)

  Dropped-remove :
      (i : ℕ) (ms : List Member) (r : List Member × ℕ) (m : Member)
      → get_elem? ms i ≡ some m
      → leb (entry_length m) t ≡ false
      → Dropped limit t i (remove ms i) r
      → Dropped limit t (suc i) ms r
  Dropped-remove i ms r m e big d = record {
    tracked = d.tracked;
    kept = Sublist.trans d.kept (sublist-remove ms i e);
    shorts = d.shorts ∙ short-remove i ms m e big;
    ends = elim d.ends [
      | inl fits ↦ inl fits
      | inr q ↦
          inr (q ∙ rw (take-remove ms i e, drop-remove ms i e, short-take_big i ms m e big) refl)
    ];
  }

  pub drop_members-Dropped :
      (index : ℕ) (ms : List Member)
      → (len : ℕ) → len ≡ total_length ms
      → Dropped limit t index ms (drop_members limit t index ms len)
  unfolding drop_members
  drop_members-Dropped zero ms len e = record {
    tracked = e;
    kept = Sublist.refl ms;
    shorts = refl;
    ends = inr refl;
  }
  drop_members-Dropped (suc i) ms len e = elim (Option-cases (get_elem? ms i)) [
    | inl missing ↦
        rw (missing, drop_members)
          (Dropped-end i ms (drop_members limit t i ms len) missing
            (drop_members-Dropped i ms len e))
    | inr (m, found) ↦ elim (Bool-cases (leb (entry_length m) t)) [
      | inl small ↦
          rw (found, drop_members)
            (rw (small, drop_members)
              (Dropped-short i ms (drop_members limit t i ms len) m found small
                (drop_members-Dropped i ms len e)))
      | inr big ↦
          let ms' = remove ms i in
          let len' = len - (entry_length m + (if is_empty ms' then 0 else 1)) in
          let e' : len' ≡ total_length ms' = rw e (sym (total_length-remove ms i found)) in
          rw (found, drop_members)
            (rw (big, drop_members)
              (elim (Bool-cases (exceeds len' limit)) [
                | inl over ↦
                    rw (over, drop_members)
                      (Dropped-remove i ms (drop_members limit t i ms' len') m found big
                        (drop_members-Dropped i ms' len' e'))
                | inr fits ↦
                    rw (fits, drop_members)
                      (Dropped-remove i ms (ms', len') m found big
                        (record {
                          tracked = e';
                          kept = Sublist.refl ms';
                          shorts = refl;
                          ends = inl fits;
                        }))
              ]))
    ]
  ]
