-- ===== src/Log.antt =====
-- src/internal/pumalog.c: a format string behind a prefix, printed to a stream. Strings are bytes that
-- end at the first 0.
pub mod Format
use puma.Base.{
  ℕ, zero, suc, ◌+◌, ◌%◌, ◌^◌, Option, none, some, List, [], ◌∷◌, ◌==◌, if◌then◌else◌, length,
}

abbrev first_byte : ℕ → Option (List ℕ) → Option (List ℕ)
first_byte c none = none
first_byte c (some rest) = some (c ∷ rest)

abbrev one_more : Option ℕ → Option ℕ
one_more none = none
one_more (some n) = some (suc n)

-- The functions of string.h that the file uses. A read or a write behind the end of an array is a
-- fault.
unfoldable pub strlen : List ℕ → Option ℕ
strlen [] = none
strlen (c ∷ rest) = if c == 0 then some 0 else one_more (strlen rest)

unfoldable pub strcpy : (dest src : List ℕ) → Option (List ℕ)
strcpy dest [] = none
strcpy [] (c ∷ src) = none
strcpy (d ∷ dest) (c ∷ src) = if c == 0 then some (0 ∷ dest) else first_byte c (strcpy dest src)

-- At most `n` bytes of `src` and a 0 are put at the start of `dest`.
unfoldable pub put_bytes : (dest src : List ℕ) → (n : ℕ) → Option (List ℕ)
put_bytes [] src n = none
put_bytes (d ∷ dest) src zero = some (0 ∷ dest)
put_bytes (d ∷ dest) [] (suc n) = none
put_bytes (d ∷ dest) (c ∷ src) (suc n) =
    if c == 0 then some (0 ∷ dest) else first_byte c (put_bytes dest src n)

unfoldable pub strncat : (dest src : List ℕ) → (n : ℕ) → Option (List ℕ)
unfolding put_bytes
strncat [] src n = none
strncat (d ∷ dest) src n =
    if d == 0 then put_bytes (d ∷ dest) src n else first_byte d (strncat dest src n)

pub data Stream : Type 0 where
  stdout : Stream
  stderr : Stream

-- `char logFormat[length]`, with the bytes that are on the stack.
abbrev pub stack_bytes : (on_stack : ℕ → ℕ) → (length : ℕ) → List ℕ
stack_bytes on_stack zero = []
stack_bytes on_stack (suc n) = on_stack n ∷ stack_bytes on_stack n

abbrev and_print : {A : Type 0} → Option (List ℕ) → (List ℕ → A) → Option A
and_print none print = none
and_print (some format) print = some (print format)

abbrev then_bytes : Option (List ℕ) → (List ℕ → Option (List ℕ)) → Option (List ℕ)
then_bytes none next = none
then_bytes (some bytes) next = next bytes

abbrev then_size : Option ℕ → (ℕ → Option (List ℕ)) → Option (List ℕ)
then_size none next = none
then_size (some n) next = next n

-- `logFormat` when it is passed on, of a prefix with its 0.
unfoldable pub log_format : (on_stack : ℕ → ℕ) → (prefix format : List ℕ) → Option (List ℕ)
unfolding strlen strcpy strncat
log_format on_stack prefix format = then_size (strlen format) (λ format_len.
    then_bytes (strcpy (stack_bytes on_stack ((format_len + length prefix) % 2 ^ 64)) prefix)
      (λ bytes. strncat bytes format format_len))

-- "[PUMA LOG] ", "[PUMA WARNING] " and "[PUMA ERROR] ".
abbrev pub log_prefix : List ℕ
log_prefix = 91 ∷ 80 ∷ 85 ∷ 77 ∷ 65 ∷ 32 ∷ 76 ∷ 79 ∷ 71 ∷ 93 ∷ 32 ∷ 0 ∷ []

abbrev pub warning_prefix : List ℕ
warning_prefix = 91 ∷ 80 ∷ 85 ∷ 77 ∷ 65 ∷ 32 ∷ 87 ∷ 65 ∷ 82 ∷ 78 ∷ 73 ∷ 78 ∷ 71 ∷ 93 ∷ 32 ∷ 0 ∷ []

abbrev pub error_prefix : List ℕ
error_prefix = 91 ∷ 80 ∷ 85 ∷ 77 ∷ 65 ∷ 32 ∷ 69 ∷ 82 ∷ 82 ∷ 79 ∷ 82 ∷ 93 ∷ 32 ∷ 0 ∷ []

-- `vfprintf` of the C library, on what has been printed so far.
module _ {Args Output : Type 0} (vfprintf : Stream → (format : List ℕ) → Args → Output → Output)
    (on_stack : ℕ → ℕ) where
  unfoldable pub logf : (format : List ℕ) → Args → Output → Option Output
  unfolding log_format
  logf format args out =
      and_print (log_format on_stack log_prefix format) (λ bytes. vfprintf stdout bytes args out)

  unfoldable pub warnf : (format : List ℕ) → Args → Output → Option Output
  unfolding log_format
  warnf format args out =
      and_print (log_format on_stack warning_prefix format)
        (λ bytes. vfprintf stdout bytes args out)

  unfoldable pub errorf : (format : List ℕ) → Args → Output → Option Output
  unfolding log_format
  errorf format args out =
      and_print (log_format on_stack error_prefix format) (λ bytes. vfprintf stderr bytes args out)
