-- ===== src/Email/Base64.antt =====
-- email.rs: `base64`, and a decoder written from the alphabet.
use docsis_monitor.Base.{shr, low_bits, get_elem?, Text, codes, ℕ, ◌+◌, ◌*◌, ◌^◌, [], ◌∷◌}
use mathlib.Core.Option.{get_or}

abbrev pub alphabet : Text
alphabet = codes "ABCDEFGHIJKLMNOPQRSTUVWXYZabcdefghijklmnopqrstuvwxyz0123456789+/"

-- `A[((n >> shift) & 0x3F) as usize]`.
unfoldable pub letter : ℕ → ℕ → ℕ
letter n shift = get_or (get_elem? alphabet (low_bits (shr n shift) 6)) 0

abbrev pub pad : ℕ
pad = b'='

-- The 24 bits of a chunk. The shifted bytes share no bit, so that `|` adds them.
abbrev pub chunk_bits : ℕ → ℕ → ℕ → ℕ
chunk_bits a b c = a * 2 ^ 16 + b * 2 ^ 8 + c

-- `base64`, by chunks of three bytes and what is left of them.
unfoldable pub base64 : Text → Text
unfolding letter
base64 [] = []
base64 (a ∷ []) = let n = chunk_bits a 0 0 in letter n 18 ∷ letter n 12 ∷ pad ∷ pad ∷ []
base64 (a ∷ b ∷ []) = let n = chunk_bits a b 0 in letter n 18 ∷ letter n 12 ∷ letter n 6 ∷ pad ∷ []
base64 (a ∷ b ∷ c ∷ raw) =
    let n = chunk_bits a b c in letter n 18 ∷ letter n 12 ∷ letter n 6 ∷ letter n 0 ∷ base64 raw
