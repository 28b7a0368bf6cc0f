-- ===== src/Http/Parser/Query.antt =====
-- The parameters of a query or a form: what the loop over '&' stores.
use sinetlib.Base.{
  ℕ, zero, suc, ◌+◌, ◌<◌, ◌≡◌, refl, ◌∙◌, List, [], ◌∷◌, ◌++◌, length, length-append,
  take-length-append, Bytes, Dict, arith, ◌==◌, insert, true, false,
}
use sinetlib.Net.Buffer.Search.{find_byte-cons, drop_behind}
use sinetlib.Net.Buffer.{find_byte}
use sinetlib.Http.Parser.{add_parameter, add_parameters}
use sinetlib.Http.Request.{HttpRequest, add_query}

-- A name without '=' and a value, neither with '&'.
pub record IsParameter (f : Bytes × Bytes) : Type 0 where
  pub name : find_byte b'=' f.0 ≡ length f.0
  pub whole : find_byte b'&' (f.0 ++ b'=' ∷ f.1) ≡ length (f.0 ++ b'=' ∷ f.1)

pub data AreParameters : List (Bytes × Bytes) → Type 0 where
  no_parameters : AreParameters []
  more_parameters :
      {f : Bytes × Bytes} {fs : List (Bytes × Bytes)}
      → IsParameter f
      → AreParameters fs
      → AreParameters (f ∷ fs)

-- As they are sent: `a=1&b=2`.
abbrev pub render_parameters : List (Bytes × Bytes) → Bytes
render_parameters [] = []
render_parameters ((n, v) ∷ []) = n ++ b'=' ∷ v
render_parameters ((n, v) ∷ (f ∷ fs)) = (n ++ b'=' ∷ v) ++ b'&' ∷ render_parameters (f ∷ fs)

-- A later parameter takes the place of an earlier one of that name.
abbrev pub store_parameters : Dict → List (Bytes × Bytes) → Dict
store_parameters d [] = d
store_parameters d ((n, v) ∷ fs) = store_parameters (insert n v d) fs

add_parameter_lem :
    (r : HttpRequest) (n v : Bytes)
    → find_byte b'=' n ≡ length n
    → add_parameter r (n ++ b'=' ∷ v) ≡ record r { querys = insert n v r.querys }
unfolding add_parameter add_query
add_parameter_lem r n v h = rw (
  find_byte-cons b'=' n v h,
  inside,
  take-length-append n (b'=' ∷ v) (length n) refl,
  drop_behind n v b'=' (length n + 1) (omega arith),
)
  where
    inside : (length n == length (n ++ b'=' ∷ v)) ≡ false
    inside = ground (arith, length-append n (b'=' ∷ v))

-- The part behind the last '&'.
last_part :
    (fuel : ℕ) (r : HttpRequest) (n v : Bytes)
    → IsParameter (n, v)
    → add_parameters (suc fuel) r (n ++ b'=' ∷ v) ≡ record r { querys = insert n v r.querys }
unfolding add_parameters
last_part fuel r n v h = rw (h.whole, same, some_there) (add_parameter_lem r n v h.name)
  where
    same : (length (n ++ b'=' ∷ v) == length (n ++ b'=' ∷ v)) ≡ true
    same = ground arith

    some_there : (length (n ++ b'=' ∷ v) == 0) ≡ false
    some_there = ground (arith, length-append n (b'=' ∷ v))

-- A part with an '&' behind it.
first_part :
    (fuel : ℕ) (r : HttpRequest) (n v rest : Bytes)
    → IsParameter (n, v)
    → add_parameters (suc fuel) r ((n ++ b'=' ∷ v) ++ b'&' ∷ rest)
      ≡ add_parameters fuel (record r { querys = insert n v r.querys }) rest
unfolding add_parameters
first_part fuel r n v rest h = rw (
  find_byte-cons b'&' (n ++ b'=' ∷ v) rest h.whole,
  inside,
  take-length-append (n ++ b'=' ∷ v) (b'&' ∷ rest) _ refl,
  drop_behind (n ++ b'=' ∷ v) rest b'&' (length (n ++ b'=' ∷ v) + 1) (omega arith),
  add_parameter_lem r n v h.name,
)
  where
    inside : (length (n ++ b'=' ∷ v) == length ((n ++ b'=' ∷ v) ++ b'&' ∷ rest)) ≡ false
    inside = ground (arith, length-append (n ++ b'=' ∷ v) (b'&' ∷ rest))

-- The text of any list of parameters is stored parameter by parameter, in order, whatever was stored
-- before, if the fuel is more than the bytes.
pub add_parameters-render :
    (fs : List (Bytes × Bytes)) (r : HttpRequest) (fuel : ℕ)
    → AreParameters fs
    → length (render_parameters fs) < fuel
    → add_parameters fuel r (render_parameters fs)
      ≡ record r { querys = store_parameters r.querys fs }
add_parameters-render fs r zero h e = absurd (omega arith)
add_parameters-render [] r (suc fuel) h e = unfold add_parameters find_byte in refl
add_parameters-render ((n, v) ∷ []) r (suc fuel) (more_parameters h hs) e = last_part fuel r n v h
add_parameters-render ((n, v) ∷ (f ∷ fs)) r (suc fuel) (more_parameters h hs) e =
    first_part fuel r n v (render_parameters (f ∷ fs)) h
    ∙ add_parameters-render (f ∷ fs) (record r { querys = insert n v r.querys }) fuel hs
        (omega (arith, length-append (n ++ b'=' ∷ v) (b'&' ∷ render_parameters (f ∷ fs))))
