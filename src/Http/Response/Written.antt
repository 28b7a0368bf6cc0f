-- ===== src/Http/Response/Written.antt =====
-- What a response has in its buffer.
use sinetlib.Base.{
  ◌+◌, ◌≡◌, ap, ◌∙◌, List, [], ◌∷◌, ◌++◌, length, length-append, append_assoc, append-nil, Bytes,
  Dict, arith, sym,
}
use sinetlib.Net.Buffer.Contents.{Appends, append-Appends}
use sinetlib.Net.Buffer.Valid.{IsValid, Fits}
use sinetlib.Net.Buffer
use sinetlib.Net.Buffer.{Buffer}
use sinetlib.Http.Response.{
  HttpResponse, append_all, header_pieces, append_header_to_buffer, append_body_to_buffer,
}

abbrev pub joined : List Bytes → Bytes
joined [] = []
joined (text ∷ texts) = text ++ joined texts

append_all-Appends :
    (texts : List Bytes) (b : Buffer)
    → IsValid b
    → Fits b (length (joined texts))
    → Appends b (joined texts) (append_all b texts)
unfolding append_all
append_all-Appends [] b v f = record {
  valid = v;
  bytes = sym (append-nil (Buffer.readable b));
  growth = omega arith;
}
append_all-Appends (x ∷ xs) b v f =
    let p = append-Appends x v (omega (arith, length-append x (joined xs))) in
    let q =
      append_all-Appends xs (Buffer.append b x) p.valid
        (omega (arith, p.growth, length-append x (joined xs))) in
    record {
      valid = q.valid;
      bytes =
          q.bytes
          ∙ ap (λ ys. ys ++ joined xs) p.bytes
          ∙ append_assoc (Buffer.readable b) x (joined xs);
      growth = omega (arith, p.growth, q.growth, length-append x (joined xs));
    }

-- A response with a valid buffer that stays below 2^64 bytes, once header and body are appended,
-- has just these in its buffer behind what was there: the status line, the connection field, the
-- header fields in the order of iteration, the empty line, and the body.
pub response_written :
    (order : Dict → List (Bytes × Bytes)) (r : HttpResponse) (body : Bytes)
    → IsValid r.buffer
    → Fits r.buffer (length (joined (header_pieces r (order r.headers))) + length body)
    → let s = append_body_to_buffer (append_header_to_buffer order r) body in
      IsValid s.buffer
      × (Buffer.readable s.buffer
          ≡ (Buffer.readable r.buffer ++ joined (header_pieces r (order r.headers))) ++ body)
unfolding append_body_to_buffer append_header_to_buffer
response_written order r body v f =
    let p = append_all-Appends (header_pieces r (order r.headers)) r.buffer v (omega arith) in
    let q = append-Appends body p.valid (omega (arith, p.growth)) in
    (q.valid, q.bytes ∙ ap (λ ys. ys ++ body) p.bytes)
