-- ===== src/Config/Text.antt =====
-- The texts of rustapps/crypto-batcher/src/config.rs that are not plain integers: durations, sizes in
-- bytes, flags. A text is the list of the codes of its characters, and `f64` a parameter.
use crypto_lakehouse.Prelude.{
  Bool, List, Option, String, [], any, if◌then◌else◌, is_nil, leb, map, nat_beq, none, some, ℕ,
  ◌&&◌, ◌*◌, ◌+◌, ◌||◌, ◌∷◌,
}
use crypto_lakehouse.Result.{Result, ok, err, panicked}
use crypto_lakehouse.Sink.Dedup.{codes, same_codes}
use crypto_lakehouse.Config.{is_whitespace, optional, parse}

abbrev pub trim_start : List ℕ → List ℕ
trim_start [] = []
trim_start (c ∷ cs) = if is_whitespace c then trim_start cs else c ∷ cs

abbrev pub trim_end : List ℕ → List ℕ
trim_end [] = []
trim_end (c ∷ cs) =
    let rest = trim_end cs in if is_nil rest && is_whitespace c then [] else c ∷ rest

abbrev pub trim : List ℕ → List ℕ
trim cs = trim_end (trim_start cs)

-- `to_ascii_lowercase`.
abbrev pub lower : ℕ → ℕ
lower c = if leb 65 c && leb c 90 then c + 32 else c

abbrev pub trimmed_lower : List ℕ → List ℕ
trimmed_lower cs = map lower (trim cs)

-- An arm of a `match` on a text.
abbrev pub one_of : List String → List ℕ → Bool
one_of words cs = any (λ w. same_codes (codes w) cs) words

-- `f64`, as far as the settings use it.
pub record Float : Type 1 where
  pub F64 : Type 0
  pub from_str : List ℕ → Option F64
  pub of_ℕ : ℕ → F64
  pub times : F64 → F64 → F64
  -- `as usize`
  pub to_usize : F64 → ℕ
  -- `Duration::from_secs_f64` in nanoseconds, where it does not panic
  pub to_nanos : F64 → Option ℕ

abbrev or_panic : Option ℕ → Result ℕ
or_panic none = err (panicked "can not convert float seconds to Duration")
or_panic (some nanos) = ok nanos

-- The first character that belongs to no number, and what is before it.
unfoldable pub split_number : List ℕ → List ℕ × List ℕ
split_number [] = ([], [])
split_number (c ∷ cs) =
    let rest = split_number cs in
    if (leb 48 c && leb c 57) || nat_beq c 46 then (c ∷ rest.0, rest.1) else ([], c ∷ cs)

-- A text that starts with a dot (46) is a number as a whole.
unfoldable pub number_and_unit : List ℕ → List ℕ × List ℕ
unfolding split_number
number_and_unit [] = ([], [])
number_and_unit (c ∷ cs) = if nat_beq c 46 then (c ∷ cs, []) else split_number (c ∷ cs)

-- The binary factor of a suffix.
unfoldable pub factor : List ℕ → Option ℕ
factor mul =
    if one_of ("" ∷ "b" ∷ []) mul
    then some 1
    else if one_of ("k" ∷ "kb" ∷ "kib" ∷ []) mul
    then some 1024
    else if one_of ("m" ∷ "mb" ∷ "mib" ∷ []) mul
    then some (1024 * 1024)
    else if one_of ("g" ∷ "gb" ∷ "gib" ∷ []) mul
    then some (1024 * 1024 * 1024)
    else none

module _ (f : Float) where
  unfoldable pub seconds : (String → Option String) → String → f.F64 → Result ℕ
  unfolding parse
  seconds env key default =
      or_panic (f.to_nanos (parse env (λ raw. f.from_str (codes raw)) key default))

  -- The number, and its unit.
  unfoldable pub sized : List ℕ × List ℕ → Option ℕ
  unfolding factor
  sized (num, mul) = elim (f.from_str num) [
    | none ↦ none
    | some value ↦ elim (factor (trimmed_lower mul)) [
      | none ↦ none
      | some n ↦ some (f.to_usize (f.times value (f.of_ℕ n)))
    ]
  ]

  unfoldable pub parse_bytes : List ℕ → Option ℕ
  unfolding number_and_unit sized
  parse_bytes raw = sized (number_and_unit (trim raw))

  unfoldable pub bytes_env : (String → Option String) → String → ℕ → ℕ
  unfolding optional parse_bytes
  bytes_env env key default = elim (optional env key) [
    | none ↦ default
    | some raw ↦ elim (parse_bytes (codes raw)) [ none ↦ default | some n ↦ n ]
  ]

unfoldable pub bool_env : (String → Option String) → String → Bool → Bool
unfolding optional
bool_env env key default = elim (optional env key) [
  | none ↦ default
  | some raw ↦ one_of ("1" ∷ "true" ∷ "yes" ∷ "on" ∷ []) (trimmed_lower (codes raw))
]
