-- ===== src/Hash.antt =====
-- The string hash of include/common/hash.h.
use mini_redis.Base.{ℕ, ◌+◌, ◌*◌, ◌%◌, ◌^◌, [], ◌∷◌, Bytes}

-- The loop, with the hash of the bytes before.
unfoldable pub str_hash_loop : ℕ → Bytes → ℕ
str_hash_loop h [] = h
str_hash_loop h (b ∷ rest) = str_hash_loop ((h + b) % 2 ^ 32 * 0x01000193 % 2 ^ 32) rest

unfoldable pub str_hash : Bytes → ℕ
unfolding str_hash_loop
str_hash bytes = str_hash_loop 0x811C9DC5 bytes
