-- ===== src/Socket/ByteOrder.antt =====
-- `htonl`, `ntohl`, `htons` and `ntohs` of a little-endian processor.
use epics_tcl.Prelude.{ℕ, ◌+◌, ◌*◌, ◌/◌, ◌%◌, ◌^◌, ◌≡◌, ◌<◌, arith}

unfoldable pub htons : ℕ → ℕ
htons n = n % 2 ^ 8 * 2 ^ 8 + n / 2 ^ 8 % 2 ^ 8

unfoldable pub htonl : ℕ → ℕ
htonl n =
    n % 2 ^ 8 * 2 ^ 24
    + n / 2 ^ 8 % 2 ^ 8 * 2 ^ 16
    + n / 2 ^ 16 % 2 ^ 8 * 2 ^ 8
    + n / 2 ^ 24 % 2 ^ 8

abbrev pub ntohs : ℕ → ℕ
ntohs = htons

abbrev pub ntohl : ℕ → ℕ
ntohl = htonl

pub htons-ntohs : (n : ℕ) → n < 2 ^ 16 → htons (ntohs n) ≡ n
unfolding htons
htons-ntohs n h = omega arith

pub htonl-ntohl : (n : ℕ) → n < 2 ^ 32 → htonl (ntohl n) ≡ n
unfolding htonl
htonl-ntohl n h = omega arith
