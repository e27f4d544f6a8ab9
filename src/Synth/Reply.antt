-- ===== src/Synth/Reply.antt =====
-- Record lines and a last line: what the client makes of the lines of a reply.
use cs370_term_project.Prelude.{
  ◌≡◌, true, some, List, [], ◌∷◌, ◌++◌, refl, sym, ap, ◌∙◌, append_assoc, append-nil, arith, length,
  ◌<◌,
}
use cs370_term_project.Prelude.Bytes.{Bytes}
use cs370_term_project.Text.{codes, equal, join}
use cs370_term_project.Kv.{Parsed, ok_text, kv_parse_line, is_printable, kv_reply_check}
use cs370_term_project.Kv.Reply.{AreInLine, AreRecords, Ends, text_of, kv_reply_check-text_of}
use cs370_term_project.Synth
use cs370_term_project.Synth.{Out, newline, reply_err, outf}
use cs370_term_project.Synth.Records.{IsRecord, is_printable-AreInLine}

-- An error's line without its newline.
abbrev pub err_line : Bytes → Bytes → Bytes
err_line code reason = codes "err " ++ (code ++ b' ' ∷ reason)

pub record IsError (code reason : Bytes) : Type 0 where
  pub printable : is_printable (err_line code reason) ≡ true
  pub ends : Ends (kv_parse_line (err_line code reason))

abbrev pub err_text : Bytes → Bytes → Bytes
err_text code reason = join (codes "err " ∷ code ∷ codes " " ∷ reason ∷ newline ∷ [])

-- The lines of a reply.
pub data IsReply : List Bytes → Type 0 where
  ends_ok : IsReply (Synth.ok_line ∷ [])
  ends_err : (code reason : Bytes) → IsError code reason → IsReply (err_text code reason ∷ [])
  adds : (l : Bytes) (ls : List Bytes) → IsRecord l → IsReply ls → IsReply (l ∷ ls)

-- A reply is never empty.
pub IsReply-positive : {ls : List Bytes} → IsReply ls → 0 < length ls
IsReply-positive ends_ok = omega arith
IsReply-positive (ends_err code reason h) = omega arith
IsReply-positive (adds l ls h r) = omega arith

record Parts (text : Bytes) : Type 0 where
  records : List Bytes
  last : Bytes
  split : text ≡ text_of records ++ (last ++ newline)
  are_records : AreRecords records
  in_line : AreInLine last
  ends : Ends (kv_parse_line last)

ok-Parts : Parts (join (Synth.ok_line ∷ []))
unfolding kv_parse_line is_printable equal
ok-Parts = record {
  records = [];
  last = ok_text;
  split = refl;
  are_records = tt;
  in_line = (refl, refl, (refl, refl, tt));
  ends = tt;
}

err-Parts : (code reason : Bytes) → IsError code reason → Parts (join (err_text code reason ∷ []))
err-Parts code reason h = record {
  records = [];
  last = err_line code reason;
  split =
      append-nil (err_text code reason)
      ∙ ap (λ t. codes "err " ++ t) (sym (append_assoc code (b' ' ∷ reason) newline));
  are_records = tt;
  in_line = is_printable-AreInLine (err_line code reason) h.printable;
  ends = h.ends;
}

adds-Parts : (l : Bytes) (ls : List Bytes) → IsRecord l → Parts (join ls) → Parts (join (l ∷ ls))
adds-Parts l ls h p = record {
  records = h.line ∷ p.records;
  last = p.last;
  split =
      ap (λ t. t ++ join ls) h.ended
      ∙ append_assoc h.line newline (join ls)
      ∙ ap (λ t. h.line ++ b'\n' ∷ t) p.split
      ∙ sym (append_assoc h.line (b'\n' ∷ text_of p.records) (p.last ++ newline));
  are_records = (h.in_line, h.parsed, p.are_records);
  in_line = p.in_line;
  ends = p.ends;
}

IsReply-Parts : {ls : List Bytes} → IsReply ls → Parts (join ls)
IsReply-Parts ends_ok = ok-Parts
IsReply-Parts (ends_err code reason h) = err-Parts code reason h
IsReply-Parts (adds l ls h r) = adds-Parts l ls h (IsReply-Parts r)

-- What the client's check says of a text.
pub record IsChecked (text : Bytes) : Type 0 where
  pub last : Parsed
  pub ends : Ends last
  pub checks : kv_reply_check text ≡ some last

pub IsReply-IsChecked : {ls : List Bytes} → IsReply ls → IsChecked (join ls)
IsReply-IsChecked r =
    let p = IsReply-Parts r in
    record {
      last = kv_parse_line p.last;
      ends = p.ends;
      checks =
          ap kv_reply_check p.split
          ∙ (kv_reply_check-text_of p.records p.last 0 [] p.are_records p.in_line p.ends).0;
    }
