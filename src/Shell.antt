-- ===== src/Shell.antt =====
-- web/src/main.tsx, App.tsx, components/Layout.tsx and components/ErrorFallback.tsx: the page around the
-- pages. react-router and react-error-boundary are parameters.
pub mod Links
use Prim.Native.String.{◌++◌ as append}
use vrclog_companion.Prelude.{
  String, Bool, true, false, Option, none, some, List, [], ◌∷◌, map, if◌then◌else◌,
}

pub data PageName : Type 0 where
  now_page history_page stats_page settings_page : PageName

-- A route under "/"; the index route has no path.
pub record PageRoute : Type 0 where
  pub path : Option String
  pub element : PageName

abbrev pub page_routes : List PageRoute
page_routes =
    record { path = none; element = now_page }
    ∷ record { path = some "history"; element = history_page }
    ∷ record { path = some "stats"; element = stats_page }
    ∷ record { path = some "settings"; element = settings_page }
    ∷ []

-- `is_match` says whether a route under "/" is that of a location, the part of the address after "#",
-- and `is_active` whether a NavLink to a path is active there.
pub record Router : Type 0 where
  pub is_match : Option String → String → Bool
  pub is_active : String → String → Bool

pub record Link : Type 0 where
  pub to : String
  pub class_name : String
  pub text : String

abbrev pub link_class : Bool → String
link_class is_active =
    append "px-3 py-1.5 rounded-md text-sm font-medium transition-colors "
      (if is_active then "bg-blue-100 text-blue-700" else "text-gray-600 hover:bg-gray-100")

abbrev pub nav_link : Router → String → String → String → Link
nav_link router location to text = record {
  to = to;
  class_name = link_class (router.is_active to location);
  text = text;
}

pub record Screen : Type 0 where
  pub title : String
  pub links : List Link
  pub outlet : PageName

unfoldable pub layout : Router → String → PageName → Screen
layout router location outlet = record {
  title = "VRClog";
  links =
      nav_link router location "/" "Now"
      ∷ nav_link router location "/history" "History"
      ∷ nav_link router location "/stats" "Stats"
      ∷ nav_link router location "/settings" "Settings"
      ∷ [];
  outlet = outlet;
}

abbrev pub find_page : Router → String → List PageRoute → Option PageName
find_page router location [] = none
find_page router location (route ∷ routes) =
    let rest = find_page router location routes in
    if router.is_match route.path location then some route.element else rest

-- No match renders nothing.
unfoldable pub app : Router → String → Option Screen
app router location = elim (find_page router location page_routes) [
  | none ↦ none
  | some page ↦ some (layout router location page)
]

pub record Fallback : Type 0 where
  pub title : String
  pub message : String
  pub button : String

abbrev pub error_fallback : String → Fallback
error_fallback message = record {
  title = "Something went wrong";
  message = message;
  button = "Try again";
}

pub data Root : Type 0 where
  shows_app : Option Screen → Root
  shows_fallback : Fallback → Root

-- The error that the boundary has caught, if any; "Try again" is its reset, which clears it.
unfoldable pub render_root : Router → String → Option String → Root
render_root router location none = shows_app (app router location)
render_root router location (some message) = shows_fallback (error_fallback message)
