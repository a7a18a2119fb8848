-- ===== src/Response/Plain.antt =====
-- A call of `read_unchunked` of bin/proxyOriginActiveSocket.c for a body that is not in chunks.
use proxy_server_http.Base.{
  ℕ, zero, suc, ◌-◌, ◌≤◌, min, ◌≡◌, refl, sym, ap, ◌∙◌, arith, Bool, true, false, ◌==◌, ◌&&◌, ◌||◌,
  if◌then◌else◌, List, [], ◌∷◌, length, take, drop, length-take, length-drop, take-all, drop-nil,
  ltb, sub_int, is_zero, pos, negsuc, Bool-cases, inl, inr,
}
use proxy_server_http.Buffer.{Buffer, buffer_count, buffer_read_data}
use proxy_server_http.Buffer.Fifo.{IsValid, contents, length-contents, read_data-Took}
use proxy_server_http.Chunked.{Origin, bytes, is_unset, read_plain, read_unchunked}
use proxy_server_http.Response.{Exchange, origin_of, put_origin}
use proxy_server_http.Response.Body.{Operable}

-- What the parser knows of a body that is not in chunks: its length, or that there is none.
pub record Plain (counted : Bool) (left : ℕ) (e : Exchange) : Type 0 where
  pub ready : Operable e
  pub length_is : e.facts.parser.content_length ≡ (if counted then pos left else negsuc 0)
  pub no_chunks : counted ≡ false → e.facts.parser.chunk_enabled ≡ false
  pub within : counted ≡ true → buffer_count e.parser_buff ≤ left

-- A call of `read_unchunked`: the bytes that it takes, up to 1000.
pub record Taken (counted : Bool) (left inner : ℕ) (e : Exchange) : Type 0 where
  pub after : Origin
  pub is :
      read_unchunked inner 1000 (origin_of e) ≡ bytes (take 1000 (contents e.parser_buff)) after
  pub same : after.write_buff ≡ e.write_buff
  pub leaves : contents after.parser_buff ≡ drop 1000 (contents e.parser_buff)
  pub plain :
      Plain counted (left - length (take 1000 (contents e.parser_buff))) (put_origin after e)
  pub finish :
      after.finished
      ≡ ((counted && (left - length (take 1000 (contents e.parser_buff)) == 0)) || e.finished)

-- `read_unchunked` where there are no chunks.
reads_plain :
    (counted : Bool) (left inner : ℕ) (e : Exchange)
    → Plain counted left e
    → read_unchunked inner 1000 (origin_of e) ≡ read_plain counted 1000 (origin_of e)
unfolding read_unchunked
reads_plain true left inner e p =
    let known : is_unset e.facts.parser.content_length ≡ false = ap is_unset p.length_is in
    rw known refl
reads_plain false left inner e p =
    let unknown : is_unset e.facts.parser.content_length ≡ true = ap is_unset p.length_is in
    rw (unknown, p.no_chunks refl) refl

take-min : (k : ℕ) (xs : List ℕ) → take (min k (length xs)) xs ≡ take k xs
take-min k xs = elim (Bool-cases (ltb k (length xs))) [
  | inl more ↦ ap (λ j. take j xs) (ground arith)
  | inr all ↦ take-all (min k (length xs)) xs (ground arith) ∙ sym (take-all k xs (ground arith))
]

drop_all : (k : ℕ) (xs : List ℕ) → length xs ≤ k → drop k xs ≡ []
drop_all k [] h = drop-nil k
drop_all zero (x ∷ xs) h = absurd (omega arith)
drop_all (suc k) (x ∷ xs) h = drop_all k xs (omega arith)

drop-min : (k : ℕ) (xs : List ℕ) → drop (min k (length xs)) xs ≡ drop k xs
drop-min k xs = elim (Bool-cases (ltb k (length xs))) [
  | inl more ↦ ap (λ j. drop j xs) (ground arith)
  | inr all ↦ drop_all (min k (length xs)) xs (ground arith) ∙ sym (drop_all k xs (ground arith))
]

sub_int_pos : (a n : ℕ) → n ≤ a → sub_int (pos a) n ≡ pos (a - n)
sub_int_pos a n h = ground arith

-- A read of up to 1000 bytes.
record PlainRead (b : Buffer) : Type 0 where
  taken : (buffer_read_data b (pos 1000)).1 ≡ take 1000 (contents b)
  amount : (buffer_read_data b (pos 1000)).0 ≡ length (take 1000 (contents b))
  left : contents (buffer_read_data b (pos 1000)).2 ≡ drop 1000 (contents b)
  valid : IsValid (buffer_read_data b (pos 1000)).2
  fewer :
      buffer_count (buffer_read_data b (pos 1000)).2
      ≡ buffer_count b - length (take 1000 (contents b))

read-PlainRead : (b : Buffer) → IsValid b → PlainRead b
read-PlainRead b v =
    let (n, t) = read_data-Took b 1000 v in
    let c = contents b in
    let same : (buffer_read_data b (pos 1000)).0 ≡ min 1000 (length c) =
      n ∙ ap (min 1000) (sym (length-contents b)) in
    let left = t.leaves ∙ ap (λ k. drop k c) same ∙ drop-min 1000 c in
    record {
      taken = t.took ∙ ap (λ k. take k c) same ∙ take-min 1000 c;
      amount = same ∙ sym (length-take 1000 c);
      left = left;
      valid = t.valid;
      fewer = omega (
        arith,
        ap length left,
        length-drop 1000 c,
        length-take 1000 c,
        length-contents b,
        length-contents (buffer_read_data b (pos 1000)).2,
      );
    }

pub plain-Taken :
    (counted : Bool) (left inner : ℕ) (e : Exchange)
    → Plain counted left e
    → Taken counted left inner e
unfolding read_plain
plain-Taken false left inner e p =
    let r = read-PlainRead e.parser_buff p.ready.parser in
    let o = record (origin_of e) { parser_buff = (buffer_read_data e.parser_buff (pos 1000)).2 } in
    record {
      after = o;
      is = reads_plain false left inner e p ∙ ap (λ xs. bytes xs o) r.taken;
      same = refl;
      leaves = r.left;
      plain = record {
        ready = record { client = p.ready.client; parser = r.valid };
        length_is = p.length_is;
        no_chunks = p.no_chunks;
        within = λ t. absurd (cc);
      };
      finish = refl;
    }
plain-Taken true left inner e p =
    let r = read-PlainRead e.parser_buff p.ready.parser in
    let n = (buffer_read_data e.parser_buff (pos 1000)).0 in
    let size = length (take 1000 (contents e.parser_buff)) in
    let remains = sub_int e.facts.parser.content_length n in
    let o = record (origin_of e) {
      parser_buff = (buffer_read_data e.parser_buff (pos 1000)).2;
      parser = record e.facts.parser { content_length = remains };
      finished = is_zero remains || e.finished;
    } in
    let small : size ≤ left = omega (
      arith,
      p.within refl,
      length-take 1000 (contents e.parser_buff),
      length-contents e.parser_buff,
    ) in
    let value : remains ≡ pos (left - size) =
      ap (λ z. sub_int z n) p.length_is
      ∙ ap (sub_int (pos left)) r.amount
      ∙ sub_int_pos left size small in
    record {
      after = o;
      is = reads_plain true left inner e p ∙ ap (λ xs. bytes xs o) r.taken;
      same = refl;
      leaves = r.left;
      plain = record {
        ready = record { client = p.ready.client; parser = r.valid };
        length_is = value;
        no_chunks = λ t. absurd (cc);
        within = λ t. omega (arith, r.fewer, p.within refl);
      };
      finish = ap (λ z. is_zero z || e.finished) value;
    }
