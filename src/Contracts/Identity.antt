-- ===== src/Contracts/Identity.antt =====
-- The checks on identities and timestamps at the head of history/state-history.js (the same texts
-- stand in harness/run-journal.js and history/turn-replay.js).
use tavern_mnemosyne.Prelude.{
  ℕ, ◌+◌, ◌-◌, ◌*◌, ◌%◌, Bool, true, false, not, ◌&&◌, ◌||◌, [], ◌∷◌, ltb, leb, nat_eq,
  if◌then◌else◌, Text, length, get_elem?, take, drop, any, none, some,
}

abbrev is_digit : ℕ → Bool
is_digit c = leb b'0' c && leb c b'9'

abbrev is_alphanumeric : ℕ → Bool
is_alphanumeric c = (leb b'A' c && leb c b'Z') || ((leb b'a' c && leb c b'z') || is_digit c)

-- `[A-Za-z0-9._-]`
abbrev is_id_unit : ℕ → Bool
is_id_unit c = is_alphanumeric c || (nat_eq c b'.' || (nat_eq c b'_' || nat_eq c b'-'))

every : (ℕ → Bool) → Text → Bool
every p [] = true
every p (c ∷ s) = p c && every p s

-- SAFE_ID_PATTERN, `^[A-Za-z0-9][A-Za-z0-9._-]*$`.
unfoldable pub is_safe_id : Text → Bool
unfolding every
is_safe_id [] = false
is_safe_id (c ∷ s) = is_alphanumeric c && every is_id_unit s

-- White space and line terminators, as `trim` and `\s` know them.
abbrev pub is_space : ℕ → Bool
is_space c =
    (leb 9 c && leb c 13)
    || (nat_eq c 32
        || (nat_eq c 0xa0
            || (nat_eq c 0x1680
                || ((leb 0x2000 c && leb c 0x200a)
                    || (nat_eq c 0x2028
                        || (nat_eq c 0x2029
                            || (nat_eq c 0x202f
                                || (nat_eq c 0x205f || (nat_eq c 0x3000 || nat_eq c 0xfeff)))))))))

-- `assertOpaqueHostId`: not blank, at most 2048 units, no control character.
unfoldable pub is_opaque_host_id : Text → Bool
unfolding every any
is_opaque_host_id s =
    not (every is_space s) && (leb (length s) 2048 && not (any (λ c. ltb c 32 || nat_eq c 127) s))

-- HASH_PATTERN, `^[a-f0-9]{64}$`.
unfoldable pub is_hash : Text → Bool
unfolding every
is_hash s = nat_eq (length s) 64 && every (λ c. is_digit c || (leb b'a' c && leb c b'f')) s

-- The number that a run of digits stands for.
number_from : ℕ → Text → ℕ
number_from acc [] = acc
number_from acc (c ∷ s) = number_from (acc * 10 + (c - 48)) s

abbrev is_leap : ℕ → Bool
is_leap y = nat_eq (y % 4) 0 && (not (nat_eq (y % 100) 0) || nat_eq (y % 400) 0)

days_in_month : ℕ → ℕ → ℕ
days_in_month y m =
    if nat_eq m 2
    then (if is_leap y then 29 else 28)
    else if nat_eq m 4 || (nat_eq m 6 || (nat_eq m 9 || nat_eq m 11))
    then 30
    else 31

abbrev has_unit : Text → ℕ → ℕ → Bool
has_unit s i c = elim (get_elem? s i) [ none ↦ false | some d ↦ nat_eq d c ]

-- `n` digits from position `i`.
digits_at : Text → ℕ → ℕ → Bool
unfolding every
digits_at s i n = nat_eq (length (take n (drop i s))) n && every is_digit (take n (drop i s))

number_at : Text → ℕ → ℕ → ℕ
unfolding number_from
number_at s i n = number_from 0 (take n (drop i s))

-- ISO_TIMESTAMP_PATTERN.
matches_iso_timestamp : Text → Bool
unfolding digits_at
matches_iso_timestamp s =
    nat_eq (length s) 24
    && (digits_at s 0 4
        && (has_unit s 4 b'-'
            && (digits_at s 5 2
                && (has_unit s 7 b'-'
                    && (digits_at s 8 2
                        && (has_unit s 10 b'T'
                            && (digits_at s 11 2
                                && (has_unit s 13 b':'
                                    && (digits_at s 14 2
                                        && (has_unit s 16 b':'
                                            && (digits_at s 17 2
                                                && (has_unit s 19 b'.'
                                                    && (digits_at s 20 3
                                                        && has_unit s 23 b'Z')))))))))))))

-- A text of that form is what `toISOString` gives back exactly when its fields name an instant.
unfoldable pub is_canonical_iso_timestamp : Text → Bool
unfolding matches_iso_timestamp number_at days_in_month
is_canonical_iso_timestamp s =
    let year = number_at s 0 4 in
    let month = number_at s 5 2 in
    let day = number_at s 8 2 in
    matches_iso_timestamp s
    && (leb 1 month
        && (leb month 12
            && (leb 1 day
                && (leb day (days_in_month year month)
                    && (ltb (number_at s 11 2) 24
                        && (ltb (number_at s 14 2) 60 && ltb (number_at s 17 2) 60))))))
