-- ===== src/Service/ErrorText/Characters.antt =====
-- How long a stored text is, and when cutting it leaves whole characters.
use chrono_flow.Common.{
  ltb, leb, if◌then◌else◌, Bool-cases, Bytes, length, take, length-take, ℕ, zero, suc, ◌+◌, ◌≤◌,
  ◌<◌, ◌≡◌, refl, ◌↔◌, inl, inr, false, ◌&&◌, Option, none, some, [], ◌∷◌, ◌++◌, arith,
}
use chrono_flow.Service.ErrorText.{ellipsis, cut, truncate_worker_error, truncate_outbox_error}

-- The shape of UTF-8: how many bytes of a character are still to come after a byte. none is no text.
abbrev pub next_state : ℕ → ℕ → Option ℕ
next_state zero c =
    if ltb c 128
    then some 0
    else if leb 194 c && ltb c 224
    then some 1
    else if leb 224 c && ltb c 240
    then some 2
    else if leb 240 c && ltb c 245
    then some 3
    else none
next_state (suc n) c = if leb 128 c && ltb c 192 then some n else none

abbrev pub read_on : Option ℕ → Bytes → Option ℕ
read_on none bytes = none
read_on (some n) [] = some n
read_on (some n) (c ∷ bytes) = read_on (next_state n c) bytes

-- Whole characters only.
abbrev pub IsText : Bytes → Type 0
IsText bytes = read_on (some 0) bytes ≡ some 0

read_on-append : (o : Option ℕ) (xs ys : Bytes) → read_on o (xs ++ ys) ≡ read_on (read_on o xs) ys
read_on-append none xs ys = refl
read_on-append (some n) [] ys = refl
read_on-append (some n) (c ∷ xs) ys = read_on-append (next_state n c) xs ys

-- An ellipsis goes on after whole characters only.
read_ellipsis : (o : Option ℕ) → (read_on o ellipsis ≡ some 0) ↔ (o ≡ some 0)
read_ellipsis none = ((λ h. cc), (λ h. cc))
read_ellipsis (some zero) = ((λ h. refl), (λ h. refl))
read_ellipsis (some (suc n)) = ((λ h. cc), (λ h. cc))

cut_long : (message : Bytes) → 2048 < length message → cut message ≡ take 2045 message ++ ellipsis
unfolding cut
cut_long message h = let t : leb (length message) 2048 ≡ false = ground arith in rw t refl

length-append : (xs ys : Bytes) → length (xs ++ ys) ≡ length xs + length ys
length-append [] ys = omega arith
length-append (x ∷ xs) ys = omega (arith, length-append xs ys)

length-cut : (message : Bytes) → length (cut message) ≤ 2048
unfolding cut
length-cut message = elim (Bool-cases (leb (length message) 2048)) [
  | inl t ↦ rw t (ground arith)
  | inr t ↦
      rw t (omega (arith, length-append (take 2045 message) ellipsis, length-take 2045 message))
]

module _ (trim_space : Bytes → Bytes) (message : Bytes) where
  -- Of an error whose trimmed text has more than 2048 bytes, a worker and a dispatcher store at most
  -- 2048, which are whole characters of UTF-8 exactly if the first 2045 bytes of the text are.
  pub truncated-IsText :
      2048 < length (trim_space message)
      → (length (truncate_worker_error trim_space message) ≤ 2048)
        × (length (truncate_outbox_error trim_space message) ≤ 2048)
        × (IsText (truncate_worker_error trim_space message)
            ↔ IsText (take 2045 (trim_space message)))
        × (IsText (truncate_outbox_error trim_space message)
            ↔ IsText (take 2045 (trim_space message)))
  unfolding truncate_worker_error truncate_outbox_error
  truncated-IsText long =
      (length-cut (trim_space message), length-cut (trim_space message), whole, whole)
    where
      whole : IsText (cut (trim_space message)) ↔ IsText (take 2045 (trim_space message))
      whole =
          rw (cut_long (trim_space message) long, read_on-append)
            (read_ellipsis (read_on (some 0) (take 2045 (trim_space message))))
