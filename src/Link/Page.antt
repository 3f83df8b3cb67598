-- ===== src/Link/Page.antt =====
-- data-link/src/lib.rs: the OpenGraph data of a page.
use Prim.Native.String.{◌++◌ as push_str}
use ark_rust.Base.{String, Option, none, some, List, [], ◌∷◌}
use ark_rust.Error.{ArklibError, from, reqwest_error, Outcome, Result, ok, err, returned, panic}

pub record OpenGraph : Type 0 where
  pub title : Option String
  pub description : Option String
  pub url : Option String
  pub image : Option String
  pub object_type : Option String
  pub locale : Option String

pub data OpenGraphTag : Type 0 where
  of_title of_url of_image of_type of_description of_locale of_image_height of_image_width
        of_site_name :
      OpenGraphTag

abbrev pub as_str : OpenGraphTag → String
as_str of_title = "title"
as_str of_url = "url"
as_str of_image = "image"
as_str of_type = "type"
as_str of_description = "description"
as_str of_locale = "locale"
as_str of_image_height = "image:height"
as_str of_image_width = "image:width"
as_str of_site_name = "site_name"

-- An element of a page: its attributes by their names, and the texts in it.
pub record Element : Type 0 where
  pub attr : String → Option String
  pub text : List String

-- What lies outside: the crates `scraper` and `reqwest`. An image is `none` where the request of it,
-- which is unwrapped, fails.
pub record Web (Html : Type 0) : Type 0 where
  pub get : String → Option String
  pub parse_document : String → Html
  pub select : Html → String → List Element
  pub image : String → Option String

-- `Option::or`
abbrev pub or_else : Option String → Option String → Option String
or_else (some s) other = some s
or_else none other = other

abbrev pub first_content : List Element → Option String
first_content [] = none
first_content (element ∷ _) = element.attr "content"

abbrev pub first_text : List String → Option String
first_text [] = none
first_text (s ∷ _) = some s

abbrev pub first_title : List Element → Option String
first_title [] = none
first_title (element ∷ _) = first_text element.text

module _ {Html : Type 0} (web : Web Html) where
  unfoldable pub select_og : Html → OpenGraphTag → Option String
  select_og html tag =
      first_content (web.select html (push_str "meta[property=\"og:" (push_str (as_str tag) "\"]")))

  unfoldable pub select_desc : Html → Option String
  select_desc html = first_content (web.select html "meta[name=\"description\"]")

  unfoldable pub select_title : Html → Option String
  select_title html = first_title (web.select html "title")

  -- `get_preview` of the link with this text of its url.
  unfoldable pub get_preview : String → Result ArklibError OpenGraph
  unfolding select_og select_desc select_title
  get_preview url = elim (web.get url) [
    | none ↦ err (from reqwest_error)
    | some scraper ↦
        let html = web.parse_document scraper in
        ok (record {
          title = or_else (select_og html of_title) (select_title html);
          description = or_else (select_og html of_description) (select_desc html);
          url = select_og html of_url;
          image = select_og html of_image;
          object_type = select_og html of_type;
          locale = select_og html of_locale;
        })
  ]

  -- `fetch_image`
  unfoldable pub fetch_image : OpenGraph → Outcome ArklibError (Option String)
  fetch_image graph = elim graph.image [
    | none ↦ returned (ok none)
    | some url ↦ elim (web.image url) [ none ↦ panic | some bytes ↦ returned (ok (some bytes)) ]
  ]
