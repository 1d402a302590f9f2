-- ===== src/Dialogue/Attach.antt =====
-- The file content that `run_turn` puts before the prompt. The limit is the number that the
-- configuration gives for `file_content_limit_chars`.
use Prim.Native.String.{◌++◌}
use io_iii_runtime.Prelude.{
  ℕ, suc, ◌/◌, ◌≤◌, ◌<◌, ◌≡◌, refl, String, Option, none, some, List, [], ◌∷◌, arith, ltb,
  if◌then◌else◌, inl, inr, ◌⊎◌, Bool-cases, Option-cases, zero, ltb→lt, ◌∙◌, sym,
}
use io_iii_runtime.Python.Text.Slice.{
  str_length, str_take, rfind, rfind-lt, decimal, str_length-str_take, str_take-str_take,
  str_take_all,
}
use io_iii_runtime.Python.Error.{ExnClass, Exn, exn, Result, ok, err}
use io_iii_runtime.FileStore.{FileStore, resolve}

-- The loop over the marks, from a position that ends a sentence in the second half.
cut_at : List ℕ → ℕ → String → String
cut_at [] half t = t
cut_at (c ∷ cs) half t =
    let rest = cut_at cs half t in
    elim (rfind c half 0 t) [ some (suc i) ↦ str_take (suc (suc i)) t | _ ↦ rest ]

-- `(".", "\n", "!", "?")`
abbrev pub marks : List ℕ
marks = 46 ∷ 10 ∷ 33 ∷ 63 ∷ []

unfoldable pub truncate : ℕ → String → String
unfolding cut_at
truncate limit text = cut_at marks (limit / 2) (str_take limit text)

abbrev pub notice : ℕ → ℕ → String
notice shown total =
    "\n[File content truncated at context limit — "
    ++ decimal shown
    ++ " characters shown of "
    ++ decimal total
    ++ "]"

unfoldable pub fit : ℕ → String → String
fit limit text =
    if ltb limit (str_length text)
    then truncate limit text ++ notice (str_length (truncate limit text)) (str_length text)
    else text

unfoldable pub inject : ℕ → String × String → String → String
inject limit (name, text) prompt =
    "[Attached file: " ++ name ++ "]\n---\n" ++ fit limit text ++ "\n---\n\n" ++ prompt

-- `FileRefExpiredError()`
abbrev pub file_ref_expired : Exn
file_ref_expired = record (exn ExnClass.runtime_error "") {
  first_arg = none;
  code = "FILE_REF_EXPIRED";
}

injected : ℕ → String → Result (String × String) → Result String
injected limit prompt (err e) = err file_ref_expired
injected limit prompt (ok f) = ok (inject limit f prompt)

-- The prompt of the turn.
unfoldable pub attach : ℕ → FileStore → String → Option String → String → Result String
unfolding injected
attach limit files session none prompt = ok prompt
attach limit files session (some ref) prompt = injected limit prompt (resolve session ref files)

cut_at-str_take :
    (cs : List ℕ) (half : ℕ) (t : String)
    → (n : ℕ) × (n ≤ str_length t) × (cut_at cs half t ≡ str_take n t)
unfolding cut_at
cut_at-str_take [] half t =
    (str_length t, omega arith, sym (str_take_all (str_length t) t (omega arith)))
cut_at-str_take (c ∷ cs) half t = elim (Option-cases (rfind c half 0 t)) [
  | inl e ↦ rw (e, cut_at) (cut_at-str_take cs half t)
  | inr (zero, e) ↦ rw (e, cut_at) (cut_at-str_take cs half t)
  | inr (suc i, e) ↦
      rw (e, cut_at) (suc (suc i), omega (arith, rfind-lt c half 0 (suc i) t e), refl)
]

-- Truncating leaves a prefix of the text, no longer than the limit.
truncate-str_take :
    (limit : ℕ) (text : String)
    → limit < str_length text
    → (n : ℕ) × (n ≤ limit) × (truncate limit text ≡ str_take n text)
unfolding truncate
truncate-str_take limit text h =
    let (n, le, e) = cut_at-str_take marks (limit / 2) (str_take limit text) in
    let bound : n ≤ limit = omega (arith, le, str_length-str_take limit text (omega (arith, h))) in
    (n, bound, e ∙ str_take-str_take n limit text bound)

-- A text within the limit is attached whole; of a longer one a prefix of at most the limit is
-- attached, with a notice of how many of its characters are shown.
fit-str_take :
    (limit : ℕ) (text : String)
    → (str_length text ≤ limit) × (fit limit text ≡ text)
      ⊎ (limit < str_length text)
        × (n : ℕ) × (n ≤ limit)
        × (fit limit text ≡ str_take n text ++ notice n (str_length text))
unfolding fit
fit-str_take limit text = elim (Bool-cases (ltb limit (str_length text))) [
  | inl b ↦
      let h = ltb→lt limit (str_length text) b in
      let (n, le, e) = truncate-str_take limit text h in
      let shown : str_length (str_take n text) ≡ n =
        str_length-str_take n text (omega (arith, h, le)) in
      inr (h, n, le, rw (b, e, shown) refl)
  | inr b ↦ inl (ground (arith, b), rw b refl)
]
