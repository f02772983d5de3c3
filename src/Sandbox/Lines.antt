-- ===== src/Sandbox/Lines.antt =====
-- How the output of a process is cut into pieces does not matter.
use Prim.Native.Char.{Char, code}
use Prim.Native.String as Text
use Prim.Native.String.{◌++◌}
use text.Mathlib.TextLemmas.{cons-append, nil-append, append_assoc, append-nil}
use mathlib.Core.List as Lists
use mathlib.Core.List.{◌++◌ as append}
use vumi.Base.{
  ◌+◌, ◌≤◌, ◌==◌, String, ◌≡◌, refl, sym, ap, ◌∙◌, true, List, [], ◌∷◌, arith, leb, Bool-cases, inl,
  inr,
}
use vumi.Sandbox.Protocol.{
  Process, size, onto_first, split_lines, with_chunk, all_but_last, last_line, check_recv,
  process_data, out_received,
}

size-append : (s t : String) → size (s ++ t) ≡ size s + size t
unfolding size
size-append Text.[] t = rw (nil-append t) (omega arith)
size-append (Text.◌∷◌ c s) t = rw (cons-append c s t) (omega (arith, size-append s t))

split_lines-cons : (s : String) → (l : String) × (ls : List String) × (split_lines s ≡ l ∷ ls)
unfolding split_lines
split_lines-cons Text.[] = ("", [], refl)
split_lines-cons (Text.◌∷◌ c s) = elim (Bool-cases (code c == 10)) [
  | inl newline ↦ rw newline ("", split_lines s, refl)
  | inr other ↦ let (l, ls, e) = split_lines-cons s in rw other (rw e (Text.◌∷◌ c l, ls, refl))
]

-- The lines of two texts one after the other: the last line of the first goes on in the second.
abbrev glue : List String → List String → List String
glue first second = append (all_but_last first) (with_chunk (last_line first) second)

glue-cons : (x l : String) (ls ms : List String) → glue (x ∷ l ∷ ls) ms ≡ x ∷ glue (l ∷ ls) ms
unfolding all_but_last last_line
glue-cons x l ls ms = refl

glue-onto_first :
    (c : Char) (l : String) (ls : List String) (m : String) (ms : List String)
    → glue (onto_first c (l ∷ ls)) (m ∷ ms) ≡ onto_first c (glue (l ∷ ls) (m ∷ ms))
unfolding all_but_last last_line
glue-onto_first c l [] m ms = rw (cons-append c l m) refl
glue-onto_first c l (k ∷ ls) m ms = refl

split_lines-append : (s t : String) → split_lines (s ++ t) ≡ glue (split_lines s) (split_lines t)
unfolding split_lines all_but_last last_line
split_lines-append Text.[] t =
    let (m, ms, e) = split_lines-cons t in rw (nil-append t) (rw e (rw (nil-append m) refl))
split_lines-append (Text.◌∷◌ c s) t =
    let (l, ls, e) = split_lines-cons s in
    let (m, ms, f) = split_lines-cons t in
    elim (Bool-cases (code c == 10)) [
      | inl newline ↦ rw (cons-append c s t) (rw newline (rw (split_lines-append s t) (rw e refl)))
      | inr other ↦
          rw (cons-append c s t) (
            rw other
              (rw (split_lines-append s t) (rw e (rw f (sym (glue-onto_first c l ls m ms))))))
    ]

with_chunk-glue :
    (chunk l : String) (ls : List String) (m : String) (ms : List String)
    → with_chunk chunk (glue (l ∷ ls) (m ∷ ms)) ≡ glue ((chunk ++ l) ∷ ls) (m ∷ ms)
unfolding all_but_last last_line
with_chunk-glue chunk l [] m ms = rw (append_assoc chunk l m) refl
with_chunk-glue chunk l (k ∷ ls) m ms = refl

all_but_last-append :
    (ls : List String) (m : String) (ms : List String)
    → (all_but_last (append ls (m ∷ ms)) ≡ append ls (all_but_last (m ∷ ms)))
      × (last_line (append ls (m ∷ ms)) ≡ last_line (m ∷ ms))
unfolding all_but_last last_line
all_but_last-append [] m ms = (refl, refl)
all_but_last-append (l ∷ []) m ms = (refl, refl)
all_but_last-append (l ∷ k ∷ ls) m ms =
    let (some_lines, last) = all_but_last-append (k ∷ ls) m ms in (ap (λ x. l ∷ x) some_lines, last)

-- A piece for which there is room.
out_received-eq :
    (s : String) (lines : List String) (p : Process)
    → with_chunk p.chunk (split_lines s) ≡ lines
    → p.recv_bytes + size s ≤ p.recv_limit
    → out_received s p ≡ record p {
      recv_bytes = p.recv_bytes + size s;
      requests = append p.requests (all_but_last lines);
      chunk = last_line lines;
    }
unfolding out_received process_data check_recv
out_received-eq s lines p e h =
    let fits : leb (p.recv_bytes + size s) p.recv_limit ≡ true = ground arith in rw fits (rw e refl)

-- Two pieces after each other do what one piece does that is both, where there is room for them.
pub out_received-append :
    (s t : String) (p : Process)
    → p.recv_bytes + (size s + size t) ≤ p.recv_limit
    → out_received t (out_received s p) ≡ out_received (s ++ t) p
out_received-append s t p h =
    let (l, ls, e) = split_lines-cons s in
    let (m, ms, f) = split_lines-cons t in
    let l1 = (p.chunk ++ l) ∷ ls in
    let m1 = last_line l1 ++ m in
    let first = out_received-eq s l1 p (ap (with_chunk p.chunk) e) (omega (arith, h)) in
    let p1 = record p {
      recv_bytes = p.recv_bytes + size s;
      requests = append p.requests (all_but_last l1);
      chunk = last_line l1;
    } in
    let second =
      out_received-eq t (m1 ∷ ms) p1 (ap (with_chunk (last_line l1)) f) (omega (arith, h)) in
    let lines : with_chunk p.chunk (split_lines (s ++ t)) ≡ append (all_but_last l1) (m1 ∷ ms) =
      rw (split_lines-append s t) (rw e (rw f (with_chunk-glue p.chunk l ls m ms))) in
    let room : p.recv_bytes + size (s ++ t) ≤ p.recv_limit = omega (arith, h, size-append s t) in
    let both = out_received-eq (s ++ t) (append (all_but_last l1) (m1 ∷ ms)) p lines room in
    let (done, left) = all_but_last-append (all_but_last l1) m1 ms in
    let bytes : p.recv_bytes + size s + size t ≡ p.recv_bytes + size (s ++ t) =
      omega (arith, size-append s t) in
    let requests =
      Lists.append_assoc p.requests (all_but_last l1) (all_but_last (m1 ∷ ms))
      ∙ ap (append p.requests) (sym done) in
    ap (out_received t) first
    ∙ second
    ∙ (λ i. record p { recv_bytes = bytes i; requests = requests i; chunk = sym left i })
    ∙ sym both

-- The pieces that a process writes, and the text that they make.
unfoldable pub receive_all : List String → Process → Process
receive_all [] p = p
receive_all (s ∷ pieces) p = receive_all pieces (out_received s p)

unfoldable pub whole : List String → String
whole [] = ""
whole (s ∷ pieces) = s ++ whole pieces

-- However the output of a process is cut into pieces, the process is left as if the output had
-- come in one piece: the requests are the same, and so is what is kept of the last line. The output
-- is no longer than the limit allows.
pub receive_all_lem :
    (s : String) (pieces : List String) (p : Process)
    → p.recv_bytes + size (whole (s ∷ pieces)) ≤ p.recv_limit
    → receive_all (s ∷ pieces) p ≡ out_received (whole (s ∷ pieces)) p
unfolding receive_all whole
receive_all_lem s [] p h = rw (append-nil s) refl
receive_all_lem s (t ∷ pieces) p h =
    let parts = size-append s (t ++ whole pieces) in
    let first =
      out_received-eq s (with_chunk p.chunk (split_lines s)) p refl (omega (arith, h, parts)) in
    let bytes = ap (λ (q : Process). q.recv_bytes) first in
    let limit = ap (λ (q : Process). q.recv_limit) first in
    receive_all_lem t pieces (out_received s p) (omega (arith, h, parts, bytes, limit))
    ∙ out_received-append s (t ++ whole pieces) p (omega (arith, h, parts))
