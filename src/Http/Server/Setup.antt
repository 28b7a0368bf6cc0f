-- ===== src/Http/Server/Setup.antt =====
-- http/httpserver.h and http/httpserver.cpp: the object HttpServer as a program sets it up, with the
-- routes that are written `server.NewRoute()->SetPrefix(…)->SetHandler(server.GetFileHandler(…))`.
-- The callbacks that the constructor sets are the functions of Server.antt; OnClose is empty.
use mathlib.Core.Option
use sinetlib.Base.{
  ℕ, ◌≡◌, refl, ◌∙◌, ap, Option, none, some, Option-cases, Bool-cases, inl, inr, List, [], ◌∷◌,
  ◌++◌, map, Bytes, Dict,
}
use sinetlib.Http.File.{FileSystem}
use sinetlib.Http.Request.{HttpRequest}
use sinetlib.Http.Response.{HttpResponse, new_response}
use sinetlib.Http.Router
use sinetlib.Http.Router.First.{AllReject, Accepts, match_routes-first}
use sinetlib.Http.Router.{Route, match_all, match_route, match_routes, change_route}
use sinetlib.Http.Server.Files.{get_handler}
use sinetlib.Http.Server.{Handler, page_not_found, respond, wants_close}
use sinetlib.Net.Server.{Server, new_server, start_server}

-- What a std::function of a route holds: a function, or FileHandler::Handler bound to the one fh_.
pub data Target : Type 0 where
  function : Handler → Target
  file_handler : Target

-- `prefix_path` is that of fh_, which all its handlers share.
pub record HttpServer {ℓ} (L : Type ℓ) : Type ℓ where
  pub server : Server L
  pub default_handler : Handler
  pub routes : List (Route Target)
  pub prefix_path : Bytes

-- The setters of Route.
pub data Setter : Type 0 where
  sets_path sets_prefix sets_method : Bytes → Setter
  sets_header sets_query : Bytes → Bytes → Setter
  sets_handler : Handler → Setter
  sets_files : Bytes → Setter

abbrev set : Setter → Route Target → Option (Route Target)
set (sets_path p) r = Router.set_path r p
set (sets_prefix p) r = Router.set_prefix r p
set (sets_method p) r = Router.set_method r p
set (sets_header k v) r = Router.set_header r k v
set (sets_query k v) r = Router.set_query r k v
set (sets_handler h) r = some (Router.set_handler r (function h))
set (sets_files p) r = some (Router.set_handler r file_handler)

-- What the program does to the server before it runs; `change i` is a setter on the route i.
pub data SetUp : Type 0 where
  set_default_handler : Handler → SetUp
  new_route : SetUp
  change : ℕ → Setter → SetUp

module _ {ℓ} {L : Type ℓ} where
  -- The constructor; `order` is the order of iteration over headers.
  unfoldable pub new_http_server : (Dict → List (Bytes × Bytes)) → L → ℕ → HttpServer L
  new_http_server order loop thread_num = record {
    server = new_server loop thread_num;
    default_handler = page_not_found order;
    routes = [];
    prefix_path = [];
  }

  -- GetFileHandler, whose result is always Handler bound to the same object.
  unfoldable pub get_file_handler : HttpServer L → Bytes → HttpServer L × Target
  get_file_handler s path = (record s { prefix_path = path }, file_handler)

  unfoldable pub start_http_server : (ℕ → L) → HttpServer L → HttpServer L
  start_http_server get_loop s = record s { server = start_server get_loop s.server }

  -- The arguments of a setter are computed first.
  unfoldable pub argument : HttpServer L → Setter → HttpServer L
  unfolding get_file_handler
  argument s (sets_files p) = (get_file_handler s p).0
  argument s _ = s

  -- `none` is abort(), or a route that was never made.
  unfoldable pub set_up : HttpServer L → SetUp → Option (HttpServer L)
  set_up s (set_default_handler h) = some (record s { default_handler = h })
  set_up s new_route = some (record s { routes = Router.new_route s.routes })
  set_up s (change i x) = elim (change_route i (set x) s.routes) [
    | none ↦ none
    | some rs ↦ some (record (argument s x) { routes = rs })
  ]

  unfoldable pub set_up_all : HttpServer L → List SetUp → Option (HttpServer L)
  set_up_all s [] = some s
  set_up_all s (c ∷ cs) = elim (set_up s c) [ none ↦ none | some t ↦ set_up_all t cs ]

-- The path that the last GetFileHandler is given.
abbrev pub last_path : Bytes → List SetUp → Bytes
last_path p [] = p
last_path p (change i (sets_files q) ∷ cs) = last_path q cs
last_path p (c ∷ cs) = last_path p cs

module _ (fs : FileSystem) (order : Dict → List (Bytes × Bytes)) where
  -- A call of what a route holds, as the server is at that time.
  unfoldable pub target_handler : Bytes → Target → Handler
  target_handler prefix_path (function h) = h
  target_handler prefix_path file_handler = get_handler fs order prefix_path

  -- The route as a request meets it.
  abbrev pub bound : Bytes → Route Target → Route Handler
  bound prefix_path r = record {
    handler = Option.map (target_handler prefix_path) r.handler;
    matchers = r.matchers;
  }

  module _ {ℓ} {L : Type ℓ} (regex_match : Bytes → Bytes → Option (List Bytes)) where
    -- OnRequest up to the response.
    unfoldable pub serve : HttpServer L → HttpRequest → HttpResponse
    serve s request =
        respond regex_match s.default_handler (map (bound s.prefix_path) s.routes) request

module _ {ℓ} {L : Type ℓ} where
  argument-prefix_path :
      (s : HttpServer L) (i : ℕ) (x : Setter) (cs : List SetUp)
      → last_path (argument s x).prefix_path cs ≡ last_path s.prefix_path (change i x ∷ cs)
  unfolding argument
  argument-prefix_path s i (sets_files p) cs = refl
  argument-prefix_path s i (sets_path p) cs = refl
  argument-prefix_path s i (sets_prefix p) cs = refl
  argument-prefix_path s i (sets_method p) cs = refl
  argument-prefix_path s i (sets_header k v) cs = refl
  argument-prefix_path s i (sets_query k v) cs = refl
  argument-prefix_path s i (sets_handler h) cs = refl

  set_up_all-prefix_path :
      (s t : HttpServer L) (cs : List SetUp)
      → set_up_all s cs ≡ some t
      → t.prefix_path ≡ last_path s.prefix_path cs
  unfolding set_up_all set_up
  set_up_all-prefix_path s t [] e = cc
  set_up_all-prefix_path s t (set_default_handler h ∷ cs) e =
      set_up_all-prefix_path (record s { default_handler = h }) t cs e
  set_up_all-prefix_path s t (new_route ∷ cs) e =
      set_up_all-prefix_path (record s { routes = Router.new_route s.routes }) t cs e
  set_up_all-prefix_path s t (change i x ∷ cs) e =
      elim (Option-cases (change_route i (set x) s.routes)) [
        | inl aborted ↦ cc (rw (aborted, set_up_all, set_up) at e)
        | inr (rs, changed) ↦
            set_up_all-prefix_path (record (argument s x) { routes = rs }) t cs
              (rw (changed, set_up_all, set_up) at e)
            ∙ argument-prefix_path s i x cs
      ]

module _ (fs : FileSystem) (order : Dict → List (Bytes × Bytes))
    (regex_match : Bytes → Bytes → Option (List Bytes)) where
  match_routes-bound :
      (p : Bytes) (rs : List (Route Target)) (q : HttpRequest) (m : Dict)
      → match_routes regex_match (map (bound fs order p) rs) q m ≡ (
        Option.map (target_handler fs order p) (match_routes regex_match rs q m).0,
        (match_routes regex_match rs q m).1,
      )
  unfolding match_routes match_route
  match_routes-bound p [] q m = refl
  match_routes-bound p (r ∷ rs) q m = elim (Bool-cases (match_all regex_match r.matchers q m).0) [
    | inl accepted ↦ rw (accepted, match_routes) refl
    | inr rejected ↦
        rw (rejected, match_routes)
          (match_routes-bound p rs q (match_all regex_match r.matchers q m).1)
  ]

module _ {ℓ} {L : Type ℓ} (fs : FileSystem) (order : Dict → List (Bytes × Bytes))
    (regex_match : Bytes → Bytes → Option (List Bytes)) where
  -- However a server is set up: once it runs, every route whose handler came from GetFileHandler
  -- serves from the path that the last call of GetFileHandler was given, for whatever route that
  -- was, and not from the path that its own call was given.
  pub serve-last_path :
      (s t : HttpServer L) (cs : List SetUp)
      → set_up_all s cs ≡ some t
      → (q : HttpRequest) (before after : List (Route Target)) (r : Route Target)
      → t.routes ≡ before ++ r ∷ after
      → AllReject regex_match q before
      → Accepts regex_match q r.matchers
      → r.handler ≡ some file_handler
      → serve fs order regex_match t q
        ≡ get_handler fs order
            (last_path s.prefix_path cs)
            q
            (match_all regex_match r.matchers q []).1
            (new_response (wants_close q))
  unfolding serve respond target_handler
  serve-last_path s t cs e q before after r there rejected accepted files_served =
      let found =
        ap (λ rs. match_routes regex_match rs q []) there
        ∙ match_routes-first regex_match q before after r rejected accepted in
      let bound_found = match_routes-bound fs order regex_match t.prefix_path t.routes q [] in
      rw
        (
          bound_found,
          respond,
          found,
          files_served,
          bound_found,
          found,
          set_up_all-prefix_path s t cs e,
        )
        refl
