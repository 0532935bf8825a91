-- ===== src/Log/Format.antt =====
-- The format strings that are printed.
use puma.Base.{
  ℕ, zero, suc, ◌+◌, ◌%◌, ◌^◌, ◌<◌, ◌≡◌, refl, ap, arith, false, some, List, [], ◌∷◌, ◌==◌, ◌++◌,
  length,
}
use puma.Log.{
  strlen, strcpy, put_bytes, strncat, Stream, stdout, stderr, stack_bytes, log_format, logf, warnf,
  errorf,
}

-- The bytes of a string, of which none is 0.
abbrev pub IsText : List ℕ → Type 0
IsText [] = Unit
IsText (c ∷ rest) = ((c == 0) ≡ false) × IsText rest

-- The array that a string is in, with what is behind it.
abbrev pub in_array : (text behind : List ℕ) → List ℕ
in_array [] behind = 0 ∷ behind
in_array (c ∷ text) behind = c ∷ in_array text behind

length-stack_bytes : (on_stack : ℕ → ℕ) (n : ℕ) → length (stack_bytes on_stack n) ≡ n
length-stack_bytes on_stack zero = refl
length-stack_bytes on_stack (suc n) = ap suc (length-stack_bytes on_stack n)

length-in_array :
    (text behind : List ℕ) → length (in_array text behind) ≡ length text + suc (length behind)
length-in_array [] behind = omega arith
length-in_array (c ∷ text) behind = let rest = length-in_array text behind in omega (arith, rest)

strlen-in_array :
    (text behind : List ℕ) → IsText text → strlen (in_array text behind) ≡ some (length text)
unfolding strlen
strlen-in_array [] behind is_text = refl
strlen-in_array (c ∷ text) behind (some_c, is_text) =
    rw (some_c, strlen-in_array text behind is_text) refl

strcpy-in_array :
    (text dest : List ℕ) (room : ℕ)
    → IsText text
    → length dest ≡ length text + suc room
    → (left : List ℕ) × (length left ≡ room)
      × (strcpy dest (in_array text []) ≡ some (in_array text left))
unfolding strcpy
strcpy-in_array [] [] room is_text size = absurd (omega (arith, size))
strcpy-in_array [] (d ∷ dest) room is_text size = (dest, omega (arith, size), refl)
strcpy-in_array (c ∷ text) [] room is_text size = absurd (omega (arith, size))
strcpy-in_array (c ∷ text) (d ∷ dest) room (some_c, is_text) size =
    let (left, enough, ran) = strcpy-in_array text dest room is_text (omega (arith, size)) in
    (left, enough, rw (some_c, ran) refl)

put_bytes-in_array :
    (text behind left : List ℕ) (d : ℕ)
    → IsText text
    → length left ≡ length text
    → put_bytes (d ∷ left) (in_array text behind) (length text) ≡ some (in_array text [])
unfolding put_bytes
put_bytes-in_array [] behind [] d is_text size = refl
put_bytes-in_array [] behind (x ∷ left) d is_text size = absurd (omega (arith, size))
put_bytes-in_array (c ∷ text) behind [] d is_text size = absurd (omega (arith, size))
put_bytes-in_array (c ∷ text) behind (x ∷ left) d (some_c, is_text) size =
    rw (some_c, put_bytes-in_array text behind left x is_text (omega (arith, size))) refl

strncat-in_array :
    (front text behind left : List ℕ)
    → IsText front
    → IsText text
    → length left ≡ length text
    → strncat (in_array front left) (in_array text behind) (length text)
      ≡ some (in_array (front ++ text) [])
unfolding strncat
strncat-in_array [] text behind left is_front is_text size =
    put_bytes-in_array text behind left 0 is_text size
strncat-in_array (c ∷ front) text behind left (some_c, is_front) is_text size =
    rw (some_c, strncat-in_array front text behind left is_front is_text size) refl

log_format-in_array :
    (on_stack : ℕ → ℕ) (front text behind : List ℕ)
    → IsText front
    → IsText text
    → length text + length front + 1 < 2 ^ 64
    → log_format on_stack (in_array front []) (in_array text behind)
      ≡ some (in_array (front ++ text) [])
unfolding log_format
log_format-in_array on_stack front text behind is_front is_text small =
    let size = length-in_array front [] in
    let whole : (length text + length (in_array front [])) % 2 ^ 64
        ≡ length front + suc (length text) =
      omega (arith, size, small) in
    let (left, enough, ran) =
      strcpy-in_array front (stack_bytes on_stack (length front + suc (length text))) (length text)
        is_front (length-stack_bytes on_stack (length front + suc (length text))) in
    rw (strlen-in_array text behind is_text, whole, ran)
      (strncat-in_array front text behind left is_front is_text enough)

-- The bytes of the three prefixes.
abbrev pub log_text : List ℕ
log_text = 91 ∷ 80 ∷ 85 ∷ 77 ∷ 65 ∷ 32 ∷ 76 ∷ 79 ∷ 71 ∷ 93 ∷ 32 ∷ []

abbrev pub warning_text : List ℕ
warning_text = 91 ∷ 80 ∷ 85 ∷ 77 ∷ 65 ∷ 32 ∷ 87 ∷ 65 ∷ 82 ∷ 78 ∷ 73 ∷ 78 ∷ 71 ∷ 93 ∷ 32 ∷ []

abbrev pub error_text : List ℕ
error_text = 91 ∷ 80 ∷ 85 ∷ 77 ∷ 65 ∷ 32 ∷ 69 ∷ 82 ∷ 82 ∷ 79 ∷ 82 ∷ 93 ∷ 32 ∷ []

-- For a format string without a 0 before its end, shorter than 2 ^ 64 less 17 bytes, and whatever is on
-- the stack and behind the string, each of the three functions ends without a write behind its buffer,
-- and prints with the prefix in front of the format, up to a 0 that is the last byte of the buffer:
-- `logf` and `warnf` to stdout, `errorf` to stderr.
pub logf-warnf-errorf :
    {Args Output : Type 0} (vfprintf : Stream → List ℕ → Args → Output → Output) (on_stack : ℕ → ℕ)
    (text behind : List ℕ) (args : Args) (out : Output)
    → IsText text
    → length text + 17 < 2 ^ 64
    → (logf vfprintf on_stack (in_array text behind) args out
        ≡ some (vfprintf stdout (in_array (log_text ++ text) []) args out))
      × (warnf vfprintf on_stack (in_array text behind) args out
          ≡ some (vfprintf stdout (in_array (warning_text ++ text) []) args out))
      × (errorf vfprintf on_stack (in_array text behind) args out
          ≡ some (vfprintf stderr (in_array (error_text ++ text) []) args out))
unfolding logf warnf errorf
logf-warnf-errorf vfprintf on_stack text behind args out is_text small =
    let all =
      λ (front : List ℕ) (is_front : IsText front) (less : length text + length front + 1 < 2 ^ 64).
        log_format-in_array on_stack front text behind is_front is_text less in
    (
      rw
          (all log_text
            (
              refl,
              (refl, (refl, (refl, (refl, (refl, (refl, (refl, (refl, (refl, (refl, tt)))))))))),
            )
            (omega (arith, small)))
          refl,
      rw
          (all warning_text
            (
              refl,
              (
                refl,
                (
                  refl,
                  (
                    refl,
                    (
                      refl,
                      (
                        refl,
                        (refl, (refl, (refl, (refl, (refl, (refl, (refl, (refl, (refl, tt))))))))),
                      ),
                    ),
                  ),
                ),
              ),
            )
            (omega (arith, small)))
          refl,
      rw
          (all error_text
            (
              refl,
              (
                refl,
                (
                  refl,
                  (
                    refl,
                    (refl, (refl, (refl, (refl, (refl, (refl, (refl, (refl, (refl, tt))))))))),
                  ),
                ),
              ),
            )
            (omega (arith, small)))
          refl,
    )
