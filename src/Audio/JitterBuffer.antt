-- ===== src/Audio/JitterBuffer.antt =====
-- client_cli/src/audio/jitter_buffer.hpp. Samples are their 16-bit values; each access of the
-- buffer checks its index.
use zaza.Common.{
  ℕ, zero, suc, ◌+◌, ◌-◌, ◌*◌, ◌/◌, ◌%◌, ◌^◌, true, false, List, [], ◌∷◌, ltb, if◌then◌else◌,
  length, set, replicate,
}
use zaza.Common.Checked.{Checked, ret, ◌>>=◌, read}

pub record JitterBuffer : Type 0 where
  pub sample_rate : ℕ
  pub capacity : ℕ
  pub buffer : List ℕ
  pub write_pos : ℕ
  pub read_pos : ℕ
  pub available : ℕ

-- The constructor; the product of the two 32-bit numbers wraps.
unfoldable pub jitter_buffer : ℕ → ℕ → JitterBuffer
jitter_buffer capacity_ms sample_rate =
    let capacity = capacity_ms * sample_rate % 2 ^ 32 / 1000 in
    record {
      sample_rate = sample_rate;
      capacity = capacity;
      buffer = replicate capacity 0;
      write_pos = 0;
      read_pos = 0;
      available = 0;
    }

-- `buffer_[i] = x`
unfoldable pub store : List ℕ → ℕ → ℕ → Checked (List ℕ)
store buf i x = if ltb i (length buf) then ret (set buf i x) else Checked.bad_access

-- `write`, over the samples of `data`.
unfoldable pub write : JitterBuffer → List ℕ → Checked JitterBuffer
unfolding store
write b [] = ret b
write b (x ∷ samples) = elim (ltb b.available b.capacity) [
  | false ↦ ret b
  | true ↦ store b.buffer b.write_pos x >>= λ buf.
      write
        (record b {
          buffer = buf;
          write_pos = (b.write_pos + 1) % b.capacity;
          available = b.available + 1;
        })
        samples
]

-- `read`, for the number of samples. What is missing is silence, and `read` returns the number
-- asked for.
unfoldable pub read_samples : JitterBuffer → ℕ → Checked (JitterBuffer × List ℕ)
read_samples b zero = ret (b, [])
read_samples b (suc count) = elim (ltb 0 b.available) [
  | false ↦ ret (b, replicate (suc count) 0)
  | true ↦ read b.buffer b.read_pos >>= λ x.
      read_samples
        (record b { read_pos = (b.read_pos + 1) % b.capacity; available = b.available - 1 }) count
      >>= λ (rest : JitterBuffer × List ℕ). ret (rest.0, x ∷ rest.1)
]

unfoldable pub clear : JitterBuffer → JitterBuffer
clear b = record b {
  buffer = replicate (length b.buffer) 0;
  write_pos = 0;
  read_pos = 0;
  available = 0;
}
