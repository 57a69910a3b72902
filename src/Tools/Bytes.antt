-- ===== src/Tools/Bytes.antt =====
-- What the tools ask of the bytes of a text: utf8.Valid and strings.TrimSpace of Go, isLikelyBinary of
-- internal/agentloop/tools/read.go, formatSize and trimToLastBytes of truncate.go.
use zoa.Base.{
  ℕ, zero, suc, ◌+◌, ◌-◌, ◌*◌, ◌/◌, ◌%◌, Bool, false, not, ◌&&◌, ◌||◌, List, [], ◌∷◌, ◌++◌, ltb,
  leb, ◌==◌, if◌then◌else◌, length, take, drop, any_of,
}
use mathlib.Core.List.{reverse, foldl}
use zoa.Base.Text.{Text, codes, has_prefix, decimal}

-- Where utf8.Valid stands in a rune: `left` bytes are to come, the next one between `low` and `high`.
pub data Utf8 : Type 0 where
  within : ℕ → ℕ → ℕ → Utf8
  invalid : Utf8

abbrev pub between : ℕ → ℕ → ℕ → Bool
between low high c = leb low c && leb c high

-- The first byte of a rune.
lead : ℕ → Utf8
lead c =
    if leb c 0x7f
    then within 0 0 0
    else if between 0xc2 0xdf c
    then within 1 0x80 0xbf
    else if c == 0xe0
    then within 2 0xa0 0xbf
    else if c == 0xed
    then within 2 0x80 0x9f
    else if between 0xe1 0xef c
    then within 2 0x80 0xbf
    else if c == 0xf0
    then within 3 0x90 0xbf
    else if between 0xf1 0xf3 c
    then within 3 0x80 0xbf
    else if c == 0xf4
    then within 3 0x80 0x8f
    else invalid

unfoldable pub utf8_step : Utf8 → ℕ → Utf8
unfolding lead
utf8_step (within zero low high) c = lead c
utf8_step (within (suc left) low high) c =
    if between low high c then within left 0x80 0xbf else invalid
utf8_step invalid c = invalid

abbrev pub complete : Utf8 → Bool
complete (within left low high) = left == 0
complete invalid = false

abbrev pub utf8_start : Utf8
utf8_start = within 0 0 0

-- utf8.Valid
unfoldable pub utf8_valid : Text → Bool
utf8_valid s = complete (foldl utf8_step utf8_start s)

-- The white space of unicode.IsSpace in UTF-8.
unfoldable pub spaces : List Text
spaces =
    (0x09 ∷ [])
    ∷ (0x0a ∷ [])
    ∷ (0x0b ∷ [])
    ∷ (0x0c ∷ [])
    ∷ (0x0d ∷ [])
    ∷ (0x20 ∷ [])
    ∷ (0xc2 ∷ 0x85 ∷ [])
    ∷ (0xc2 ∷ 0xa0 ∷ [])
    ∷ (0xe1 ∷ 0x9a ∷ 0x80 ∷ [])
    ∷ (0xe2 ∷ 0x80 ∷ 0x80 ∷ [])
    ∷ (0xe2 ∷ 0x80 ∷ 0x81 ∷ [])
    ∷ (0xe2 ∷ 0x80 ∷ 0x82 ∷ [])
    ∷ (0xe2 ∷ 0x80 ∷ 0x83 ∷ [])
    ∷ (0xe2 ∷ 0x80 ∷ 0x84 ∷ [])
    ∷ (0xe2 ∷ 0x80 ∷ 0x85 ∷ [])
    ∷ (0xe2 ∷ 0x80 ∷ 0x86 ∷ [])
    ∷ (0xe2 ∷ 0x80 ∷ 0x87 ∷ [])
    ∷ (0xe2 ∷ 0x80 ∷ 0x88 ∷ [])
    ∷ (0xe2 ∷ 0x80 ∷ 0x89 ∷ [])
    ∷ (0xe2 ∷ 0x80 ∷ 0x8a ∷ [])
    ∷ (0xe2 ∷ 0x80 ∷ 0xa8 ∷ [])
    ∷ (0xe2 ∷ 0x80 ∷ 0xa9 ∷ [])
    ∷ (0xe2 ∷ 0x80 ∷ 0xaf ∷ [])
    ∷ (0xe2 ∷ 0x81 ∷ 0x9f ∷ [])
    ∷ (0xe3 ∷ 0x80 ∷ 0x80 ∷ [])
    ∷ []

-- The length of the first of `words` that the text begins with, 0 if there is none.
unfoldable pub word_length : List Text → Text → ℕ
word_length [] s = 0
word_length (w ∷ ws) s = if has_prefix s w then length w else word_length ws s

-- Leave out such words; `skip` bytes of one are still to go.
unfoldable pub skip_words : List Text → ℕ → Text → Text
unfolding word_length
skip_words ws skip [] = []
skip_words ws (suc skip) (c ∷ s) = skip_words ws skip s
skip_words ws zero (c ∷ s) =
    let n = word_length ws (c ∷ s) in
    let rest = skip_words ws (n - 1) s in if n == 0 then c ∷ s else rest

abbrev pub reverse_all : List Text → List Text
reverse_all [] = []
reverse_all (w ∷ ws) = reverse w ∷ reverse_all ws

-- strings.TrimSpace
unfoldable pub trim_space : Text → Text
unfolding skip_words spaces
trim_space s = reverse (skip_words (reverse_all spaces) 0 (reverse (skip_words spaces 0 s)))

abbrev pub sample_size : ℕ
sample_size = 8192

unfoldable pub is_likely_binary : Text → Bool
is_likely_binary content =
    let sample = take sample_size content in not (utf8_valid sample) || any_of (λ c. c == 0) sample

-- The shortest valid end after at least no byte.
unfoldable pub first_valid : Text → Text
first_valid [] = []
first_valid (c ∷ s) = let rest = first_valid s in if utf8_valid (c ∷ s) then c ∷ s else rest

unfoldable pub trim_to_last_bytes : Text → ℕ → Text
unfolding first_valid
trim_to_last_bytes s max_bytes =
    if leb (length s) max_bytes then s else first_valid (drop (length s - max_bytes) s)

-- `%.1f` of `bytes / unit` for a power of two: tenths, rounded half to even.
tenths : ℕ → ℕ → ℕ
tenths bytes zero = 0
tenths bytes (suc less) =
    let unit = suc less in
    let q = 10 * bytes / unit in
    let r = 10 * bytes % unit in
    if ltb unit (2 * r) || (2 * r == unit && q % 2 == 1) then q + 1 else q

one_decimal : ℕ → Text
unfolding tenths
one_decimal n = decimal (n / 10) ++ (b'.' ∷ (b'0' + n % 10) ∷ [])

unfoldable pub format_size : ℕ → Text
unfolding one_decimal
format_size bytes =
    if ltb bytes 1024
    then decimal bytes ++ codes "B"
    else if ltb bytes (1024 * 1024)
    then one_decimal (tenths bytes 1024) ++ codes "KB"
    else one_decimal (tenths bytes (1024 * 1024)) ++ codes "MB"
