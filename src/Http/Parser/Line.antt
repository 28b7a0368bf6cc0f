-- ===== src/Http/Parser/Line.antt =====
-- http/httpparser.cpp, ParseRequestLine: the lines that it accepts.
use sinetlib.Base.{
  ℕ, suc, ◌+◌, ◌<◌, ◌≡◌, refl, ap, ◌∙◌, ◌≢◌, true, false, [], ◌∷◌, ◌++◌, length, drop, length-drop,
  length-append, take-length-append, append_assoc, Bytes, arith, ◌==◌, codes, equal, equal_iff,
}
use sinetlib.Net.Buffer.Search.{find_byte-cons, drop_behind}
use sinetlib.Net.Buffer.{find_byte}
use sinetlib.Http.Request.{
  Method, Version, http10, http11, set_method, set_version, method_named, method_str, is_valid,
  invalid, get, post, head, put, delete,
}
use sinetlib.Http.Parser.{
  Parser, method, url, version, finish, go_on, line_step, line_method, line_url, line_version,
  is_finish, line_loop, find_space, set_target, parse_request_line,
}

abbrev pub version_text : Version → Bytes
version_text Version.unknown = []
version_text http10 = codes "HTTP/1.0"
version_text http11 = codes "HTTP/1.1"

-- A request line: a known method, a space, a target without spaces, a space, a version.
pub record IsRequestLine (line : Bytes) (m : Method) (target : Bytes) (v : Version) : Type 0 where
  pub text : line ≡ method_str m ++ 32 ∷ (target ++ 32 ∷ version_text v)
  pub known : is_valid m ≡ true
  pub no_space : find_byte 32 target ≡ length target
  pub dated : v ≢ Version.unknown

method_named-method_str : (m : Method) → is_valid m ≡ true → method_named (method_str m) ≡ m
unfolding method_named method_str equal is_valid
method_named-method_str invalid h = cc
method_named-method_str get h = refl
method_named-method_str post h = refl
method_named-method_str head h = refl
method_named-method_str put h = refl
method_named-method_str delete h = refl

pub method_str-method_named :
    (xs : Bytes) → is_valid (method_named xs) ≡ true → method_str (method_named xs) ≡ xs
unfolding method_named method_str is_valid
method_str-method_named xs h = ground (
  arith,
  equal_iff xs (codes "GET"),
  equal_iff xs (codes "POST"),
  equal_iff xs (codes "HEAD"),
  equal_iff xs (codes "PUT"),
  equal_iff xs (codes "DELETE"),
)

-- Methods hold no space.
method_no_space : (m : Method) → find_byte 32 (method_str m) ≡ length (method_str m)
unfolding method_str find_byte
method_no_space invalid = refl
method_no_space get = refl
method_no_space post = refl
method_no_space head = refl
method_no_space put = refl
method_no_space delete = refl

-- The three states, each on the line that it accepts.
method_goes :
    (p : Parser) (m : Method) (rest : Bytes)
    → is_valid m ≡ true
    → line_method p (method_str m ++ 32 ∷ rest) (length (method_str m))
      ≡ go_on
          (record p { request = record p.request { method = m }; line_state = url })
          (length (method_str m))
unfolding line_method set_method
method_goes p m rest known =
    rw
      (
        take-length-append (method_str m) (32 ∷ rest) (length (method_str m)) refl,
        method_named-method_str m known,
        inside,
      )
      (rw known)
  where
    inside : (length (method_str m) == length (method_str m ++ 32 ∷ rest)) ≡ false
    inside = ground (arith, length-append (method_str m) (32 ∷ rest))

version_goes :
    (p : Parser) (line : Bytes) (space : ℕ) (v : Version)
    → drop (space + 1) line ≡ version_text v
    → v ≢ Version.unknown
    → line_version p line space
      ≡ go_on (record p { request = set_version p.request v; line_state = finish }) space
unfolding line_version equal
version_goes p line space Version.unknown e known = absurd (known refl)
version_goes p line space http10 e known = rw e
version_goes p line space http11 e known = rw e

url_goes :
    (p : Parser) (line : Bytes) (space : ℕ) (target rest : Bytes)
    → drop (space + 1) line ≡ target ++ 32 ∷ rest
    → space < length line
    → find_byte 32 target ≡ length target
    → line_url p line space
      ≡ go_on
          (record p { request = set_target p.request target; line_state = version })
          (space + 1 + length target)
unfolding line_url find_space
url_goes p line space target rest e h none_in = rw (
  e,
  find_byte-cons 32 target rest none_in,
  take-length-append target (32 ∷ rest) (length target) refl,
  inside,
)
  where
    inside : (space + 1 + length target == length line) ≡ false
    inside =
        ground (arith, length-drop (space + 1) line, ap length e, length-append target (32 ∷ rest))

line_loop-go_on :
    (fuel : ℕ) (p q : Parser) (line : Bytes) (space next : ℕ)
    → is_finish p.line_state ≡ false
    → line_step p.line_state p line space ≡ go_on q next
    → line_loop (suc fuel) p line space ≡ line_loop fuel q line next
unfolding line_loop
line_loop-go_on fuel p q line space next more e = rw (more, e, line_loop)

line_loop-finish :
    (fuel : ℕ) (p : Parser) (line : Bytes) (space : ℕ)
    → p.line_state ≡ finish
    → line_loop (suc fuel) p line space ≡ (true, p)
unfolding line_loop
line_loop-finish fuel p line space e = rw (ap is_finish e, line_loop)

-- A parser at the start of a line accepts every request line, and stores its method, target and
-- version.
pub parse_request_line_accepts :
    (p : Parser) {line : Bytes} (m : Method) (target : Bytes) (v : Version)
    → p.line_state ≡ method
    → IsRequestLine line m target v
    → parse_request_line p line ≡ (
      true,
      record p {
        line_state = finish;
        request = set_version (set_target (record p.request { method = m }) target) v;
      },
    )
unfolding parse_request_line
parse_request_line_accepts p {line} m target v e l =
    rw (l.text, first)
      (line_loop-go_on 3 p _ whole _ _ (ap is_finish e)
          (ap (λ s. line_step s p whole (length (method_str m))) e ∙ method_goes p m rest l.known)
        ∙ line_loop-go_on 2 _ _ whole _ _ refl (
            url_goes _ whole (length (method_str m)) target (version_text v)
              (drop_behind (method_str m) rest 32 _ (omega arith))
              (omega (arith, length-append (method_str m) (32 ∷ rest))) l.no_space)
        ∙ line_loop-go_on 1 _ _ whole _ _ refl (version_goes _ whole _ v behind l.dated)
        ∙ line_loop-finish 0 _ whole _ refl)
  where
    rest : Bytes
    rest = target ++ 32 ∷ version_text v

    whole : Bytes
    whole = method_str m ++ 32 ∷ rest

    first : find_space whole 0 ≡ length (method_str m)
    first =
        unfold find_space in
        omega (arith, find_byte-cons 32 (method_str m) rest (method_no_space m))

    behind : drop (length (method_str m) + 1 + length target + 1) whole ≡ version_text v
    behind = rw (← append_assoc (method_str m) (32 ∷ target) (32 ∷ version_text v)) (
        drop_behind (method_str m ++ 32 ∷ target) (version_text v) 32 _
          (omega (arith, length-append (method_str m) (32 ∷ target))))
