-- ===== src/Label.antt =====
-- The provenance labels of include/common/log.h and their names in src/common/log.c.
use cs370_term_project.Prelude.{ℕ, Bool, ◌&&◌, leb}

-- data_src_t: a byte, since records and slots carry it as one.
abbrev pub src_invalid : ℕ
src_invalid = 0

abbrev pub src_live : ℕ
src_live = 1

abbrev pub src_replay : ℕ
src_replay = 2

abbrev pub src_synth : ℕ
src_synth = 3

-- SRC_IS_VALID
abbrev pub src_is_valid : ℕ → Bool
src_is_valid s = leb src_live s && leb s src_synth
