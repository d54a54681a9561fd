-- ===== src/Messaging/Search/Laws.antt =====
-- What searching finds.
use sudo_secure_communicatio.Prelude.{
  String, ◌≡◌, refl, true, ◌==◌, eq_iff, Bool-cases, inl, inr, Option, none, some, List, [], ◌∷◌,
  All, or_else,
}
use sudo_secure_communicatio.Messaging.Content.{EventContent}
use sudo_secure_communicatio.Messaging.Transformer.{is_room_message}
use sudo_secure_communicatio.Messaging.Search.{
  FoundEvent, SearchMessagesItem, filename_of, to_search_item, item_of, found_item, add_item,
  search_items,
}

-- An item that is found has no file name.
abbrev pub IsText : Option SearchMessagesItem → Type 0
IsText none = Unit
IsText (some item) = item.filename ≡ none

filename-text :
    (msgtype : String) (filename : Option String)
    → (msgtype == "m.text") ≡ true
    → filename_of msgtype filename ≡ none
unfolding filename_of
filename-text msgtype filename h =
    let is_text : msgtype ≡ "m.text" = (eq_iff msgtype "m.text").0 h in rw is_text refl

item_of-IsText :
    (event : FoundEvent) (content : Option EventContent) → IsText (item_of event content)
unfolding item_of to_search_item
item_of-IsText event none = tt
item_of-IsText event (some content) =
    let msgtype = or_else content.body.msgtype "" in
    elim (Bool-cases (msgtype == "m.text")) [
      | inl is_text ↦ elim (Bool-cases (is_room_message event.type)) [
        | inl message ↦ rw (message, is_text) (filename-text msgtype content.body.filename is_text)
        | inr other ↦ rw other tt
      ]
      | inr other ↦ elim (Bool-cases (is_room_message event.type)) [
        | inl message ↦ rw (message, other) tt
        | inr not_message ↦ rw not_message tt
      ]
    ]

add_item-IsText :
    (item : Option SearchMessagesItem) (items : List SearchMessagesItem)
    → IsText item
    → All (λ item. item.filename ≡ none) items
    → All (λ item. item.filename ≡ none) (add_item item items)
unfolding add_item
add_item-IsText none items h rest = rest
add_item-IsText (some item) items h rest = (h, rest)

found_item-IsText : (result : Option FoundEvent) → IsText (found_item result)
unfolding found_item
found_item-IsText none = tt
found_item-IsText (some event) = item_of-IsText event event.content

-- No item that is found has a file name: the cases of SearchMessagesItemTransformer for files are
-- never reached.
pub search_items-no_files :
    (results : List (Option FoundEvent)) → All (λ item. item.filename ≡ none) (search_items results)
unfolding search_items
search_items-no_files [] = tt
search_items-no_files (result ∷ results) =
    add_item-IsText (found_item result) (search_items results) (found_item-IsText result)
      (search_items-no_files results)
