-- ===== src/Protocol/RoundTrip/Texts.antt =====
-- The text of an object, and the writers on it.
use cxxmcp.Prelude.{
  ◌≡◌, refl, ◌∙◌, Bool, true, false, Bytes, some, [], ◌∷◌, ◌++◌, append_assoc, if◌then◌else◌,
}
use cxxmcp.Prelude.Dict.{Dict, find}
use cxxmcp.Protocol.Json.{object, JsonApi}
use cxxmcp.Protocol.Encode.{Output, opened, closed, append_separator, append_json_property}

module _ {Json : Type 0} (api : JsonApi Json) where
  abbrev separator : Bool → Bytes
  separator true = []
  separator false = b',' ∷ []

  abbrev members_text : Bool → Dict Json → Bytes
  members_text first [] = b'}' ∷ []
  members_text first ((name, value) ∷ ms) =
      separator first
      ++ (api.dump (api.of_string name) ++ (b':' ∷ (api.dump value ++ members_text false ms)))

  -- An object's text: the members in this order, separated by commas.
  abbrev pub object_text : Dict Json → Bytes
  object_text ms = b'{' ∷ members_text true ms

  abbrev pub append_all : Dict Json → Output → Output
  append_all [] o = o
  append_all ((name, value) ∷ ms) o = append_all ms (append_json_property api name value o)

  append_one :
      (name : Bytes) (value : Json) (o : Output) (rest : Bytes)
      → (append_json_property api name value o).output ++ rest
        ≡ o.output
          ++ (separator o.first
              ++ (api.dump (api.of_string name) ++ (b':' ∷ (api.dump value ++ rest))))
  unfolding append_json_property append_separator
  append_one name value o rest = one o.first o.output
    where
      one :
          (first : Bool) (s : Bytes)
          → ((((if first then s else s ++ (b',' ∷ [])) ++ api.dump (api.of_string name))
                  ++ (b':' ∷ []))
                ++ api.dump value)
              ++ rest
            ≡ s
              ++ (separator first
                  ++ (api.dump (api.of_string name) ++ (b':' ∷ (api.dump value ++ rest))))
      one true s = simp append_assoc
      one false s = simp append_assoc

  first_gone :
      (name : Bytes) (value : Json) (o : Output)
      → (append_json_property api name value o).first ≡ false
  unfolding append_json_property append_separator
  first_gone name value o = refl

  closed-append_all :
      (ms : Dict Json) (o : Output) → closed (append_all ms o) ≡ o.output ++ members_text o.first ms
  closed-append_all [] o = refl
  closed-append_all ((name, value) ∷ ms) o =
      closed-append_all ms (append_json_property api name value o)
      ∙ rw (first_gone name value o) (append_one name value o (members_text false ms))

  pub object_text_lem : (ms : Dict Json) → closed (append_all ms opened) ≡ object_text ms
  object_text_lem ms = closed-append_all ms opened

  -- The parser reads an object's text as an object with these members.
  pub record Reads (ms : Dict Json) : Type 0 where
    pub document : Json
    pub members : Dict Json
    pub parsed : api.parse (object_text ms) ≡ some document
    pub viewed : api.view document ≡ object members
    pub found : (key : Bytes) → find key members ≡ find key ms
