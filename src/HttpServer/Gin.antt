-- ===== src/HttpServer/Gin.antt =====
-- What the server uses of github.com/gin-gonic/gin, and what that library documents of it.
use trading_ecosystem_exchan.Common.{
  ℕ, ◌≡◌, String, Bool, true, false, not, ◌&&◌, ◌||◌, Option, none, some, List, [], ◌∷◌, eqb, ◌==◌,
  if◌then◌else◌, All,
}
use Prim.Native.String.{◌++◌}
use trading_ecosystem_exchan.Common.Http.{Answer}
use trading_ecosystem_exchan.Common.Text.{codes}

-- `router.GET(path, handler)` and its like: a method, a path and a handler
pub record Route (H : Type 0) : Type 0 where
  pub method : String
  pub pattern : String
  pub handler : H

-- Where a request goes: to a route, with its pattern; to another address, with no handler and no
-- middleware run; or nowhere.
pub data Routed (H : Type 0) : Type 0 where
  found : String → H → Routed H
  redirected : Answer → Routed H
  missed : Routed H

-- `join_paths` is how a group's path and a route's path make one. `not_found` is the answer where no
-- route is found, and `recovered` that of `gin.Recovery` after a panic.
pub record Gin : Type 1 where
  pub join_paths : String → String → String
  pub route : {H : Type 0} → List (Route H) → String → String → Routed H
  pub not_found : Answer
  pub recovered : Answer

-- A path of plain segments, `/a/b`: no parameter, no dot, and no empty segment.
abbrev pub are_segments : Bool → List ℕ → Bool
are_segments slash [] = not slash
are_segments slash (c ∷ cs) =
    let rest = are_segments (eqb c b'/') cs in
    if eqb c b':' || eqb c b'*' || eqb c b'.' || (slash && eqb c b'/') then false else rest

abbrev pub is_plain : List ℕ → Bool
is_plain [] = false
is_plain (c ∷ cs) = eqb c b'/' && are_segments true cs

module _ {H : Type 0} where
  -- the handler of a method and a path that a table lists
  abbrev pub listed : String → String → List (Route H) → Option H
  listed m path [] = none
  listed m path (r ∷ rs) =
      let rest = listed m path rs in
      if (r.method == m) && (r.pattern == path) then some r.handler else rest

  abbrev pub has_method : String → List (Route H) → Bool
  has_method m [] = false
  has_method m (r ∷ rs) = let rest = has_method m rs in (r.method == m) || rest

-- What the library documents: plain paths are joined end to end; a table of plain paths sends a method
-- and a path to the route that is listed under them, and a method that no route has nowhere; an
-- address that is not found is a 404, and a panic a 500.
pub record Documented (g : Gin) : Type 1 where
  pub join_paths-plain :
      (a b : String)
      → is_plain (codes a) ≡ true
      → is_plain (codes b) ≡ true
      → g.join_paths a b ≡ a ++ b
  pub join_paths-root : (b : String) → is_plain (codes b) ≡ true → g.join_paths "/" b ≡ b
  pub route-listed :
      {H : Type 0} (rs : List (Route H)) (m path : String) (h : H)
      → All (λ r. is_plain (codes r.pattern) ≡ true) rs
      → listed m path rs ≡ some h
      → g.route rs m path ≡ found path h
  pub route-missed :
      {H : Type 0} (rs : List (Route H)) (m path : String)
      → has_method m rs ≡ false
      → g.route rs m path ≡ missed
  pub not_found-status : g.not_found.status ≡ 404
  pub recovered-status : g.recovered.status ≡ 500
