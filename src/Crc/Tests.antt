-- ===== src/Crc/Tests.antt =====
-- The check value of CRC-32 and the equivalence at it.
use cs370_term_project.Prelude.{◌≡◌, refl, [], ◌∷◌, arith}
use cs370_term_project.Prelude.Bytes.{Bytes}
use cs370_term_project.Crc.{k_table, round, rounds, crc32}
use cs370_term_project.Crc.Bitwise.{bitwise_crc32, crc32-bitwise}

abbrev digits : Bytes
digits = b'1' ∷ b'2' ∷ b'3' ∷ b'4' ∷ b'5' ∷ b'6' ∷ b'7' ∷ b'8' ∷ b'9' ∷ []

crc32-digits : crc32 digits ≡ 0xcbf4_3926
unfolding crc32 rounds round k_table
crc32-digits = refl

crc32-bitwise_example : crc32 digits ≡ bitwise_crc32 digits
crc32-bitwise_example = crc32-bitwise digits (omega arith)
