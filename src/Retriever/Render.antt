-- ===== src/Retriever/Render.antt =====
-- src/spillover/retriever/render.py: the block of long-term memory.
use Prim.Native.String.{◌++◌ as append}
use spillover.Prelude.{String, Option, none, some, List, [], ◌∷◌, or_else}
use spillover.Text.{join}
use spillover.Json.{Json, str, arr, obj, Items, nil, cons, get}
use spillover.Runtime.{Codec}
use spillover.Storage.{Episode, Db}
use spillover.Retriever.{Hit}
use spillover.Retriever.Budget.{row_of_id}

-- `b.get("text", "") for b in ... if isinstance(b, dict)`; `none` is the TypeError of joining what
-- is no text.
unfoldable pub dict_texts : Items → Option (List String)
dict_texts nil = some []
dict_texts (cons (obj b) bs) = elim (or_else (get "text" b) (str "")) [
  | str t ↦ elim (dict_texts bs) [ none ↦ none | some ts ↦ some (t ∷ ts) ]
  | _ ↦ none
]
dict_texts (cons _ bs) = dict_texts bs

-- The content as text; `str(content)` of a text is the text.
unfoldable pub stored_text : Codec → Json → Option String
stored_text c (arr bs) = elim (dict_texts bs) [ none ↦ none | some ts ↦ some (join "\n" ts) ]
stored_text c (str t) = some t
stored_text c v = some (c.to_str v)

abbrev pub section_of : String → Episode → String → String
section_of i row text = append "<episode id=\"" (
    append i (
      append "\" type=\"" (
        append (or_else row.memory_type "None")
          (append "\" role=\"" (append row.role (append "\">\n" (append text "\n</episode>")))))))

-- The loop over the hits; `none` is an exception.
unfoldable pub sections_of : {F : Type 0} → Codec → Db → List (Hit F) → Option (List String)
sections_of c db [] = some []
sections_of c db (h ∷ hs) =
    let rest = sections_of c db hs in
    elim (row_of_id h.episode_id db.episodes) [
      | none ↦ rest
      | some row ↦ elim (c.loads row.content_json) [
        | none ↦ none
        | some content ↦ elim (stored_text c content) [
          | none ↦ none
          | some text ↦ elim rest [
            | none ↦ none
            | some ss ↦ some (section_of h.episode_id row text ∷ ss)
          ]
        ]
      ]
    ]

abbrev pub preamble : String
preamble = append "<spillover-ltm>\n" (
    append "Below are excerpts of YOUR OWN past statements and decisions, retrieved\n" (
      append "from a long-term memory store keyed on this project. Quote from this\n" (
        append "block whenever it answers the user's question directly. Treat them as\n"
          "facts you established earlier in this project.\n\n")))

unfoldable pub render_ltm_block : {F : Type 0} → Codec → Db → List (Hit F) → Option String
render_ltm_block c db hits = elim (sections_of c db hits) [
  | none ↦ none
  | some [] ↦ some ""
  | some (s ∷ ss) ↦ some (append preamble (append (join "\n\n" (s ∷ ss)) "\n</spillover-ltm>"))
]
