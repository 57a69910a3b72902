-- ===== src/Tools/Buffers.antt =====
-- The buffers that take the output of a command: tailBuffer of internal/agentloop/tools/bash.go and
-- cappedBuffer of grep.go. A buffer's limit is positive, which the constructors see to.
pub mod Captured
use zoa.Base.{ℕ, ◌+◌, ◌-◌, ◌*◌, Bool, [], ◌++◌, ltb, leb, ◌==◌, if◌then◌else◌, length, take, drop}
use zoa.Base.Int.{ℤ, positive_or}
use zoa.Base.Text.{Text}

abbrev pub max_captured_bytes : ℕ
max_captured_bytes = 2 * 1024 * 1024

pub record Buffer : Type 0 where
  pub max : ℕ
  pub total : ℕ
  pub buf : Text

-- newTailBuffer, newCappedBuffer
abbrev pub new_buffer : ℤ → Buffer
new_buffer max_bytes = record {
  max = positive_or max_captured_bytes max_bytes;
  total = 0;
  buf = [];
}

-- tailBuffer.Write
unfoldable pub write_tail : Buffer → Text → Buffer
write_tail b p =
    let kept = drop (length b.buf + length p - b.max) b.buf ++ p in
    let end = drop (length p - b.max) p in
    record b {
      total = b.total + length p;
      buf = if b.max == 0 then b.buf else if leb b.max (length p) then end else kept;
    }

-- cappedBuffer.Write
unfoldable pub write_capped : Buffer → Text → Buffer
write_capped b p =
    let remaining = b.max - length b.buf in
    record b {
      total = b.total + length p;
      buf =
          if ltb 0 remaining
          then b.buf ++ (if ltb remaining (length p) then take remaining p else p)
          else b.buf;
    }

-- Truncated
abbrev pub is_truncated : Buffer → Bool
is_truncated b = ltb b.max b.total
