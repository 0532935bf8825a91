-- ===== src/Tests/Log.antt =====
-- The theorem on the log functions at the format "hi", with a byte behind it.
use puma.Base.{ℕ, ◌≡◌, refl, arith, some, List, [], ◌∷◌, ◌++◌}
use puma.Log.{Stream, stdout, stderr, logf, warnf, errorf}
use puma.Log.Format.{in_array, log_text, warning_text, error_text, logf-warnf-errorf}

-- A `vfprintf` that keeps what it is given.
abbrev Printed : Type 0
Printed = List (Stream × List ℕ)

abbrev keep : Stream → List ℕ → List ℕ → Printed → Printed
keep stream format args printed = (stream, format) ∷ printed

abbrev hi : List ℕ
hi = 104 ∷ 105 ∷ []

logf-warnf-errorf_example :
    (logf keep (λ k. k) (in_array hi (33 ∷ [])) [] []
      ≡ some (keep stdout (in_array (log_text ++ hi) []) [] []))
    × (warnf keep (λ k. k) (in_array hi (33 ∷ [])) [] []
        ≡ some (keep stdout (in_array (warning_text ++ hi) []) [] []))
    × (errorf keep (λ k. k) (in_array hi (33 ∷ [])) [] []
        ≡ some (keep stderr (in_array (error_text ++ hi) []) [] []))
logf-warnf-errorf_example =
    logf-warnf-errorf keep (λ k. k) hi (33 ∷ []) [] [] (refl, (refl, tt)) (omega arith)
