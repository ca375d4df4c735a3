-- ===== src/Client/View.antt =====
-- apps/web/src/lib/session/room-route.ts: the view of a classroom in the query of its URL.
-- `URLSearchParams` is a parameter: its operations, and the laws of the URL standard on them.
use learning_orbit.Prelude.{
  String, Option, none, some, ◌===◌, if◌then◌else◌, ◌≡◌, refl, ◌∙◌, ap, arith,
}

-- `Params` are the parameters, `Search` the text of a query, without its `?`.
pub record UrlSearchParams (Params Search : Type 0) : Type 0 where
  pub get : String → Params → Option String
  pub set : String → String → Params → Params
  pub delete : String → Params → Params
  pub sort : Params → Params
  pub parse : Search → Params
  pub to_string : Params → Search
  pub get-set :
      (k v j : String) (p : Params) → get j (set k v p) ≡ (if k === j then some v else get j p)
  pub get-delete :
      (k j : String) (p : Params) → get j (delete k p) ≡ (if k === j then none else get j p)
  pub get-sort : (k : String) (p : Params) → get k (sort p) ≡ get k p
  pub get-parse : (k : String) (p : Params) → get k (parse (to_string p)) ≡ get k p

pub data RoomViewWindow : Type 0 where
  recent_10m session_45m : RoomViewWindow

pub data RoomViewName : Type 0 where
  observed human_only lineage_adjusted : RoomViewName

pub record RoomViewPreferences : Type 0 where
  pub window : RoomViewWindow
  pub view : RoomViewName

abbrev pub default_room_view : RoomViewPreferences
default_room_view = record { window = recent_10m; view = observed }

abbrev pub window_text : RoomViewWindow → String
window_text recent_10m = "recent_10m"
window_text session_45m = "session_45m"

abbrev pub view_text : RoomViewName → String
view_text observed = "observed"
view_text human_only = "human_only"
view_text lineage_adjusted = "lineage_adjusted"

-- Anything that is not recognised falls back to the default.
abbrev pub window_of : Option String → RoomViewWindow
window_of none = default_room_view.window
window_of (some t) =
    if t === "recent_10m"
    then recent_10m
    else if t === "session_45m"
    then session_45m
    else default_room_view.window

abbrev pub view_of : Option String → RoomViewName
view_of none = default_room_view.view
view_of (some t) =
    if t === "observed"
    then observed
    else if t === "human_only"
    then human_only
    else if t === "lineage_adjusted"
    then lineage_adjusted
    else default_room_view.view

written_window :
    (w : RoomViewWindow)
    → window_of (if window_text w === "recent_10m" then none else some (window_text w)) ≡ w
written_window recent_10m = refl
written_window session_45m = refl

written_view :
    (v : RoomViewName)
    → view_of (if view_text v === "observed" then none else some (view_text v)) ≡ v
written_view observed = refl
written_view human_only = refl
written_view lineage_adjusted = refl

abbrev preferences_of : RoomViewWindow → RoomViewName → RoomViewPreferences
preferences_of w v = record { window = w; view = v }

module _ {Params Search : Type 0} (url : UrlSearchParams Params Search) where
  unfoldable pub parse_room_view_preferences : Search → RoomViewPreferences
  parse_room_view_preferences search =
      let params = url.parse search in
      record {
        window = window_of (url.get "window" params);
        view = view_of (url.get "view" params);
      }

  -- One round of the loop of `roomViewSearch`: a default is left out.
  abbrev pub write_value : String → String → String → Params → Params
  write_value key value fallback p =
      if value === fallback then url.delete key p else url.set key value p

  unfoldable pub room_view_search : RoomViewPreferences → Search → Search
  room_view_search preferences base = url.to_string (
      url.sort (
        write_value "view" (view_text preferences.view) (view_text default_room_view.view) (
          write_value "window" (window_text preferences.window)
            (window_text default_room_view.window) (url.parse base))))

  get-write_value :
      (k v fallback j : String) (p : Params)
      → url.get j (write_value k v fallback p)
        ≡ (if k === j then (if v === fallback then none else some v) else url.get j p)
  get-write_value k v fallback j p = ground (arith, url.get-set k v j p, url.get-delete k j p)

  get-room_view_search :
      (preferences : RoomViewPreferences) (base : Search) (k : String)
      → url.get k (url.parse (room_view_search preferences base))
        ≡ url.get k (
            write_value "view" (view_text preferences.view) (view_text default_room_view.view) (
              write_value "window"
                (window_text preferences.window)
                (window_text default_room_view.window)
                (url.parse base)))
  unfolding room_view_search
  get-room_view_search preferences base k = url.get-parse k _ ∙ url.get-sort k _

  read_window :
      (preferences : RoomViewPreferences) (base : Search)
      → (parse_room_view_preferences (room_view_search preferences base)).window
        ≡ preferences.window
  unfolding parse_room_view_preferences
  read_window preferences base =
      ap window_of (
        get-room_view_search preferences base "window"
        ∙ get-write_value "view" (view_text preferences.view) "observed" "window" _
        ∙ get-write_value "window" (window_text preferences.window) "recent_10m" "window" _)
      ∙ written_window preferences.window

  read_view :
      (preferences : RoomViewPreferences) (base : Search)
      → (parse_room_view_preferences (room_view_search preferences base)).view ≡ preferences.view
  unfolding parse_room_view_preferences
  read_view preferences base =
      ap view_of (
        get-room_view_search preferences base "view"
        ∙ get-write_value "view" (view_text preferences.view) "observed" "view" _)
      ∙ written_view preferences.view

  -- A view that is written into any query is read back from it: the round trip through the URL loses
  -- nothing, defaults included, whatever the query held before.
  pub parse-room_view_search :
      (preferences : RoomViewPreferences) (base : Search)
      → parse_room_view_preferences (room_view_search preferences base) ≡ preferences
  parse-room_view_search preferences base =
      let read = parse_room_view_preferences (room_view_search preferences base) in
      ap (λ w. preferences_of w read.view) (read_window preferences base)
      ∙ ap (λ v. preferences_of preferences.window v) (read_view preferences base)
