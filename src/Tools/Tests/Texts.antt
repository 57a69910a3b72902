-- ===== src/Tools/Tests/Texts.antt =====
-- The cuts and the buffers of internal/agentloop/tools at concrete texts.
use zoa.Base.{◌≡◌, refl, ◌<◌, ◌⊎◌, true, false, List, [], ◌∷◌, length}
use mathlib.Core.List.{foldl}
use zoa.Base.Int.{pos, negsuc}
use zoa.Base.Text.{Text, codes, decimal}
use zoa.Tools.Truncate.{split_lines, head_lines, truncate_head}
use zoa.Tools.Head.{Within, truncate_head-Within}
use zoa.Tools.Bytes.{utf8_step, utf8_valid, first_valid, trim_to_last_bytes, format_size}
use zoa.Tools.Tail.{tail_lines, truncate_tail}
use zoa.Tools.Suffix.{WithinEnd, truncate_tail-WithinEnd}
use zoa.Tools.Buffers.{new_buffer, write_tail, write_capped, is_truncated}
use zoa.Tools.Buffers.Captured.{TailOf, HeadOf, write_tail-last, write_capped-first}

abbrev text : Text
text = codes "one\ntwo\nthree"

keeps_two : (truncate_head text (pos 2) (pos 100)).content ≡ codes "one\ntwo"
unfolding truncate_head split_lines head_lines
keeps_two = refl

keeps_bytes : (truncate_head text (pos 0) (pos 8)).reason ≡ codes "bytes"
unfolding truncate_head split_lines head_lines
keeps_bytes = refl

truncate_head-Within_example :
    Within 2 100 text (truncate_head text (pos 2) (pos 100)).content
    × ((truncate_head text (pos 2) (pos 100)).truncated ≡ false
        → (truncate_head text (pos 2) (pos 100)).content ≡ text)
    × ((truncate_head text (pos 2) (pos 100)).truncated ≡ true
        → (2 < (truncate_head text (pos 2) (pos 100)).total_lines) ⊎ (100 < length text))
truncate_head-Within_example = truncate_head-Within text (pos 2) (pos 100)

keeps_last_two : (truncate_tail text (pos 2) (negsuc 0)).content ≡ codes "two\nthree"
unfolding truncate_tail tail_lines split_lines
keeps_last_two = refl

keeps_last_rune :
    (truncate_tail (0x61 ∷ 0xc3 ∷ 0xa9 ∷ 0x62 ∷ []) (pos 2) (pos 2)).content ≡ 0x62 ∷ []
unfolding truncate_tail tail_lines split_lines trim_to_last_bytes first_valid utf8_valid utf8_step
keeps_last_rune = refl

truncate_tail-WithinEnd_example :
    WithinEnd 2 100 text (truncate_tail text (pos 2) (pos 100)).content
    × ((truncate_tail text (pos 2) (pos 100)).truncated ≡ false
        → (truncate_tail text (pos 2) (pos 100)).content ≡ text)
    × ((truncate_tail text (pos 2) (pos 100)).truncated ≡ true
        → (2 < (truncate_tail text (pos 2) (pos 100)).total_lines) ⊎ (100 < length text))
truncate_tail-WithinEnd_example = truncate_tail-WithinEnd text (pos 2) (pos 100)

sizes : format_size 1536 ≡ codes "1.5KB"
unfolding format_size decimal
sizes = refl

abbrev pieces : List Text
pieces = codes "abc" ∷ codes "de" ∷ codes "fgh" ∷ []

holds_tail : (foldl write_tail (new_buffer (pos 4)) pieces).buf ≡ codes "efgh"
unfolding write_tail
holds_tail = refl

write_tail-last_example : TailOf 4 (codes "abcdefgh") (foldl write_tail (new_buffer (pos 4)) pieces)
write_tail-last_example = write_tail-last (pos 4) pieces

write_capped-first_example :
    HeadOf 4 (codes "abcdefgh") (foldl write_capped (new_buffer (pos 4)) pieces)
    × (is_truncated (foldl write_capped (new_buffer (pos 4)) pieces) ≡ false
        → (foldl write_capped (new_buffer (pos 4)) pieces).buf ≡ codes "abcdefgh")
    × (is_truncated (foldl write_capped (new_buffer (pos 4)) pieces) ≡ true
        → length (foldl write_capped (new_buffer (pos 4)) pieces).buf < 8)
write_capped-first_example = write_capped-first (pos 4) pieces
