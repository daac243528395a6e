-- ===== src/Filter/Denial.antt =====
-- internal/plugin/consent.go, `denyResponse`: the response that takes the place of a denied one.
pub mod Headers
mod Examples
use consent_plugin.Common.{
  String, ◌≡◌, ◌≢◌, ◌⊎◌, Bool, Option, none, some, List, [], ◌∷◌, In, if◌then◌else◌,
}
use consent_plugin.Common.Int.{ℤ}
use consent_plugin.Common.Text.{has_prefix, itoa, byte_length}
use consent_plugin.Config.{Config}

-- The runner's Header: the names that View lists, none where it is nil, Del and Set; and
-- http.CanonicalHeaderKey.
pub record Header (H : Type 0) : Type 0 where
  pub names : H → Option (List String)
  pub del : H → String → H
  pub set : H → String → String → H
  pub canonical : String → String

module _ {H : Type 0} (hd : Header H) where
  -- the view lists the name
  abbrev pub Has : H → String → Type 0
  Has h n = (ns : List String) × (hd.names h ≡ some ns) × In n ns

  -- Del removes the canonical form of its name and brings no name in; Set brings in the canonical
  -- form of its name at most.
  pub record IsHeader : Type 0 where
    pub has-del : (h : H) (n m : String) → Has (hd.del h n) m → Has h m × (m ≢ hd.canonical n)
    pub has-set : (h : H) (n v m : String) → Has (hd.set h n v) m → Has h m ⊎ (m ≡ hd.canonical n)

  -- survivesDenial, for the one prefix that there is
  unfoldable pub survives_denial : String → Bool
  survives_denial name = has_prefix "Access-Control-" (hd.canonical name)

  -- the loop over the names, collected before
  unfoldable pub delete_others : List String → H → H
  unfolding survives_denial
  delete_others [] h = h
  delete_others (n ∷ ns) h = delete_others ns (if survives_denial n then h else hd.del h n)

  pub record Written : Type 0 where
    pub header : H
    pub status : ℤ
    pub body : String

  abbrev pub cleaned : H → H
  cleaned h = elim (hd.names h) [ none ↦ h | some ns ↦ delete_others ns h ]

  unfoldable pub deny_response : Config → H → Written
  unfolding delete_others
  deny_response cfg h =
      let typed = hd.set (cleaned h) "Content-Type" cfg.deny_response_content_type in
      record {
        header = hd.set typed "Content-Length" (itoa (byte_length cfg.deny_response_body));
        status = cfg.deny_status_code;
        body = cfg.deny_response_body;
      }
