-- ===== src/Wrapper/Browser.antt =====
-- crates/wrapper/src/flow.rs: `open_in_browser`, and the link that is printed before it.
use sponsor.Common.{Bool, true, false, List, [], ◌∷◌, ◌++◌}
use sponsor.Common.Text.{Text, lit}

-- `cfg!(windows)` and `cfg!(target_os = "macos")`
pub data Target : Type 0 where
  windows macos other_unix : Target

-- The terminal, and programs that are started and not waited for: whether one starts is not asked.
pub record Console (World : Type 0) : Type 0 where
  pub target : Target
  pub is_terminal : Bool
  pub println : Text → World → World
  pub spawn : Text → List Text → World → World

-- The command that hands a link to the default browser.
unfoldable pub opener : Target → Text → Text × List Text
opener windows url = (lit "rundll32", lit "url.dll,FileProtocolHandler" ∷ url ∷ [])
opener macos url = (lit "open", url ∷ [])
opener other_unix url = (lit "xdg-open", url ∷ [])

module _ {World : Type 0} (console : Console World) where
  abbrev spawned : Text × List Text → World → World
  spawned (program, args) = console.spawn program args

  abbrev opened : Bool → Text → World → World
  opened false url w = w
  opened true url w = spawned (opener console.target url) w

  -- open_in_browser
  unfoldable pub open_in_browser : Text → World → World
  unfolding opener
  open_in_browser = opened console.is_terminal

  -- The link, printed and opened.
  unfoldable pub prompt : Text → World → World
  unfolding open_in_browser
  prompt url w =
      open_in_browser url
        (console.println (lit "Solve the captcha to start the download:\n  " ++ url) w)

-- A console that nobody looks at.
abbrev pub unseen : {World : Type 0} → Console World
unseen = record {
  target = other_unix;
  is_terminal = false;
  println = λ text w. w;
  spawn = λ program args w. w;
}
