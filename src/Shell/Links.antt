-- ===== src/Shell/Links.antt =====
-- The links of components/Layout.tsx lead to the pages of App.tsx.
use vrclog_companion.Prelude.{
  ◌≡◌, refl, String, Bool, Option, none, some, List, [], ◌∷◌, map, str_eq, if◌then◌else◌,
}
use Prim.Native.String.{◌++◌ as append}
use vrclog_companion.Shell.{
  PageName, now_page, history_page, stats_page, settings_page, page_routes, Router, link_class,
  layout, find_page, app,
}

abbrev pub locations : List String
locations = "/" ∷ "/history" ∷ "/stats" ∷ "/settings" ∷ []

abbrev pub location_of : PageName → String
location_of now_page = "/"
location_of history_page = "/history"
location_of stats_page = "/stats"
location_of settings_page = "/settings"

abbrev pub text_of : PageName → String
text_of now_page = "Now"
text_of history_page = "History"
text_of stats_page = "Stats"
text_of settings_page = "Settings"

abbrev pub full_path : Option String → String
full_path none = "/"
full_path (some path) = append "/" path

-- What react-router says of routes and links of one segment: a route is that of the location that
-- spells it, and a link is active at the location that it leads to.
pub record IsRouter (router : Router) : Type 0 where
  pub matched :
      (path : Option String) (page : PageName)
      → router.is_match path (location_of page) ≡ str_eq (full_path path) (location_of page)
  pub active :
      (from to : PageName)
      → router.is_active (location_of to) (location_of from)
        ≡ str_eq (location_of to) (location_of from)

abbrev pub pages : List PageName
pages = now_page ∷ history_page ∷ stats_page ∷ settings_page ∷ []

-- The page whose route spells the location.
abbrev find_by : PageName → Option PageName
find_by page =
    let is_at : Option String → Bool = λ path. str_eq (full_path path) (location_of page) in
    if is_at none
    then some now_page
    else if is_at (some "history")
    then some history_page
    else if is_at (some "stats")
    then some stats_page
    else if is_at (some "settings")
    then some settings_page
    else none

find_page-location :
    (router : Router) (page : PageName)
    → IsRouter router
    → find_page router (location_of page) page_routes ≡ some page
find_page-location router page h =
    let first = h.matched none page in
    let second = h.matched (some "history") page in
    let third = h.matched (some "stats") page in
    let fourth = h.matched (some "settings") page in
    rw (first, second, third, fourth)
      (elim page as (λ p. find_by p ≡ some p) [
        | now_page ↦ refl
        | history_page ↦ refl
        | stats_page ↦ refl
        | settings_page ↦ refl
      ])

-- At the location of each page the app shows that page, and above it one link for each page, to that
-- page's location and under its name, of which exactly the one to the shown page is highlighted.
pub app-layout :
    (router : Router) (page : PageName)
    → IsRouter router
    → app router (location_of page)
      ≡ some (record {
        title = "VRClog";
        links =
            map
              (λ p. record {
                to = location_of p;
                class_name = link_class (str_eq (location_of p) (location_of page));
                text = text_of p;
              })
              pages;
        outlet = page;
      })
unfolding app layout
app-layout router page h =
    let now = h.active page now_page in
    let history = h.active page history_page in
    let stats = h.active page stats_page in
    let settings = h.active page settings_page in
    rw (app, find_page-location router page h, layout, now, history, stats, settings) refl
