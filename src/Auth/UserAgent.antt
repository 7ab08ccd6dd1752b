-- ===== src/Auth/UserAgent.antt =====
-- The labels of devices on the security screen (app/auth/user_agent.py).
use fund_lok.Prelude.{
  String, text_eq, Option, none, some, List, [], ◌∷◌, if◌then◌else◌, search_text, after_prefix,
  contains, take_while, append_text,
}
use fund_lok.Security.{Security}

-- The first label of a table whose needle occurs.
first_label : List (String × String) → String → Option String
first_label [] user_agent = none
first_label ((needle, label) ∷ rest) user_agent =
    let later = first_label rest user_agent in
    if contains needle user_agent then some label else later

devices : List (String × String)
devices =
    ("iPhone", "iPhone")
    ∷ ("iPad", "iPad")
    ∷ ("Android", "Android device")
    ∷ ("Macintosh", "Mac")
    ∷ ("Windows NT 10.0", "Windows PC")
    ∷ ("Windows", "Windows PC")
    ∷ ("CrOS", "Chromebook")
    ∷ ("Linux", "Linux PC")
    ∷ []

browsers : List (String × String)
browsers =
    ("Edg", "Edge")
    ∷ ("OPR", "Opera")
    ∷ ("Chrome", "Chrome")
    ∷ ("Firefox", "Firefox")
    ∷ ("Safari", "Safari")
    ∷ []

-- What stands before the digits in the expression of a label.
version_prefixes : String → List String
version_prefixes label =
    if text_eq label "Edge"
    then "Edge/" ∷ "EdgA/" ∷ "EdgiOS/" ∷ "Edg/" ∷ []
    else if text_eq label "Opera"
    then "OPR/" ∷ []
    else if text_eq label "Chrome"
    then "Chrome/" ∷ []
    else if text_eq label "Firefox"
    then "Firefox/" ∷ []
    else "Version/" ∷ []

or_default : String → Option String → String
or_default default none = default
or_default default (some label) = label

unfoldable pub describe_device : Option String → String
unfolding first_label devices or_default
describe_device none = "Unknown device"
describe_device (some user_agent) =
    if text_eq user_agent ""
    then "Unknown device"
    else or_default "Unknown device" (first_label devices user_agent)

module _ (k : Security) where
  -- Digits after one of the prefixes, here.
  match_here : List String → String → Option String
  match_here [] s = none
  match_here (p ∷ ps) s =
      let later = match_here ps s in
      elim (after_prefix p s) [
        | none ↦ later
        | some rest ↦
            let digits = take_while k.is_decimal rest in
            if text_eq digits "" then later else some digits
      ]

  with_version : String → Option String → String
  with_version label none = label
  with_version label (some digits) = append_text label (append_text " " digits)

  browser_label : String → Option String → String
  unfolding with_version match_here version_prefixes
  browser_label user_agent none = "Unknown browser"
  browser_label user_agent (some label) =
      with_version label (search_text (match_here (version_prefixes label)) user_agent)

  unfoldable pub describe_browser : Option String → String
  unfolding browser_label first_label browsers
  describe_browser none = "Unknown browser"
  describe_browser (some user_agent) =
      if text_eq user_agent ""
      then "Unknown browser"
      else browser_label user_agent (first_label browsers user_agent)
