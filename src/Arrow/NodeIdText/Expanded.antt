-- ===== src/Arrow/NodeIdText/Expanded.antt =====
-- Reading back the text of an ExpandedNodeId, and where the semicolon of a namespace URI prevents it.
use Prim.Native.String.{String, [], ◌∷◌}
use opcua_drafts.Prelude.{
  ℤ, pos, Option, none, some, ◌≡◌, ◌≢◌, refl, sym, ap, ◌∙◌, Result, ok, err, int_eq, int_eq_iff,
  Bool-cases, inl, inr, ◌>>=◌,
}
use opcua_drafts.Text.{
  append, append_assoc, remove_prefix, remove_prefix-append, split_at, split_at-append, Lacks,
}
use opcua_drafts.Text.Decimal.{to_text, parse_int, parse_int-to_text, to_text-Lacks}
use opcua_drafts.Encoding.Values.{NodeId}
use opcua_drafts.Encoding.Control.Typed.{IsNodeId}
use opcua_drafts.Arrow.NodeIdText.{
  node_id_from_text, ExpandedNodeId, server_prefix, uri_prefix, expanded_to_text, uri_from_text,
  expanded_from_text,
}
use opcua_drafts.Arrow.NodeIdText.RoundTrip.{text_trip, split_prefixed, prefixed}

-- The form that the text can carry: no semicolon in the namespace URI.
abbrev pub FitsUri : Option String → Type 0
FitsUri none = Unit
FitsUri (some uri) = Lacks ";" uri

abbrev with_parts : ℤ → Option String → NodeId → ExpandedNodeId
with_parts srv uri n = record { node_id = n; namespace_uri = uri; server_index = srv }

expanded_from_text-of_server :
    (s r a b : String) (srv : ℤ)
    → remove_prefix "svr=" s ≡ some r
    → split_at ";" r ≡ some (a, b)
    → parse_int a ≡ ok srv
    → expanded_from_text s ≡ uri_from_text srv b
unfolding expanded_from_text
expanded_from_text-of_server s r a b srv e h p = rw (e, expanded_from_text) (rw h (rw p))

expanded_from_text-of_uri :
    (s : String) → remove_prefix "svr=" s ≡ none → expanded_from_text s ≡ uri_from_text (pos 0) s
unfolding expanded_from_text
expanded_from_text-of_uri s e = rw (e, expanded_from_text)

uri_from_text-of_body :
    (srv : ℤ) (s : String) (n : NodeId)
    → remove_prefix "nsu=" s ≡ none
    → node_id_from_text s ≡ ok n
    → uri_from_text srv s ≡ ok (with_parts srv none n)
unfolding uri_from_text
uri_from_text-of_body srv s n e h = rw (e, uri_from_text) (rw h)

uri_from_text-of_uri :
    (srv : ℤ) (s r a b : String) (n : NodeId)
    → remove_prefix "nsu=" s ≡ some r
    → split_at ";" r ≡ some (a, b)
    → node_id_from_text b ≡ ok n
    → uri_from_text srv s ≡ ok (with_parts srv (some a) n)
unfolding uri_from_text
uri_from_text-of_uri srv s r a b n e h p = rw (e, uri_from_text) (rw h (rw p))

-- The server index in front of any text that begins with no server index.
server_trip :
    (srv : ℤ) (s : String)
    → remove_prefix "svr=" s ≡ none
    → expanded_from_text (append (server_prefix srv) s) ≡ uri_from_text srv s
server_trip srv s h = elim (Bool-cases (int_eq srv (pos 0))) [
  | inl e ↦ rw e (
      expanded_from_text-of_uri s h
      ∙ ap (λ k. uri_from_text k s) (sym ((int_eq_iff srv (pos 0)).0 e)))
  | inr e ↦
      let (r, found, split) = split_prefixed "svr=" (to_text srv) s (to_text-Lacks srv) in
      rw e
        (expanded_from_text-of_server _ r (to_text srv) s srv found split (parse_int-to_text srv))
]

uri_prefix-no_server :
    (uri : Option String) (s : String)
    → remove_prefix "svr=" s ≡ none
    → remove_prefix "svr=" (append (uri_prefix uri) s) ≡ none
uri_prefix-no_server none s h = h
uri_prefix-no_server (some uri) s h = unfold remove_prefix in refl

-- An ExpandedNodeId is read back from its text if its NodeId is and its namespace URI holds no semicolon.
pub expanded_from_text-expanded_to_text :
    (e : ExpandedNodeId)
    → IsNodeId e.node_id
    → FitsUri e.namespace_uri
    → (s : String) × (expanded_to_text e ≡ ok s) × (expanded_from_text s ≡ ok e)
unfolding expanded_to_text
expanded_from_text-expanded_to_text e h fits =
    let t = text_trip e.node_id h in
    (
      append (append (server_prefix e.server_index) (uri_prefix e.namespace_uri)) t.written,
      rw t.writes,
      ap expanded_from_text
            (append_assoc (server_prefix e.server_index) (uri_prefix e.namespace_uri) t.written)
          ∙ server_trip e.server_index (append (uri_prefix e.namespace_uri) t.written)
              (uri_prefix-no_server e.namespace_uri t.written t.no_server)
          ∙ uri_trip e.server_index e.namespace_uri e.node_id t.written fits t.no_uri t.reads,
    )
  where
    uri_trip :
        (srv : ℤ) (uri : Option String) (n : NodeId) (s : String)
        → FitsUri uri
        → remove_prefix "nsu=" s ≡ none
        → node_id_from_text s ≡ ok n
        → uri_from_text srv (append (uri_prefix uri) s) ≡ ok (with_parts srv uri n)
    uri_trip srv none n s f e r = uri_from_text-of_body srv s n e r
    uri_trip srv (some uri) n s f e r =
        let (rest, found, split) = split_prefixed "nsu=" uri s f in
        uri_from_text-of_uri srv _ rest uri s n found split r

append-ne : (a b : String) → append a (";" ∷ b) ≢ a
append-ne [] b = λ e. cc
append-ne (c ∷ a) b = λ e. append-ne a b (cc e)

abbrev uri_read : Result ExpandedNodeId → Option String
uri_read (ok e) = e.namespace_uri
uri_read (err e) = none

uri_read-bind :
    (m : Result NodeId) (srv : ℤ) (a b : String)
    → uri_read (m >>= λ n. ok (with_parts srv (some a) n)) ≢ some (append a (";" ∷ b))
uri_read-bind (ok n) srv a b = λ e. append-ne a b (sym (cc e))
uri_read-bind (err x) srv a b = λ e. cc e

uri_from_text-of_split :
    (srv : ℤ) (s r a t : String)
    → remove_prefix "nsu=" s ≡ some r
    → split_at ";" r ≡ some (a, t)
    → uri_from_text srv s ≡ (node_id_from_text t >>= λ n. ok (with_parts srv (some a) n))
unfolding uri_from_text
uri_from_text-of_split srv s r a t e h = rw (e, uri_from_text) (rw h)

-- An ExpandedNodeId whose namespace URI holds a semicolon has a text, and is not read back from it:
-- the URI is written as it is, and reading ends it at its first semicolon.
pub expanded_uri_with_semicolon :
    (srv : ℤ) (a b : String) (n : NodeId)
    → IsNodeId n
    → Lacks ";" a
    → (s : String) × (expanded_to_text (with_parts srv (some (append a (";" ∷ b))) n) ≡ ok s)
      × (expanded_from_text s ≢ ok (with_parts srv (some (append a (";" ∷ b))) n))
unfolding expanded_to_text
expanded_uri_with_semicolon srv a b n h l =
    let t = text_trip n h in
    let uri = append a (";" ∷ b) in
    let tail = append b (";" ∷ t.written) in
    let body = append (append "nsu=" (append uri ";")) t.written in
    (
      append (append (server_prefix srv) (uri_prefix (some uri))) t.written,
      rw t.writes,
      λ e. uri_read-bind (node_id_from_text tail) srv a b (
          ap uri_read (
            sym (
              ap expanded_from_text
                (append_assoc (server_prefix srv) (uri_prefix (some uri)) t.written)
              ∙ server_trip srv body (unfold remove_prefix in refl)
              ∙ uri_from_text-of_split srv body (append a (";" ∷ tail)) a tail
                  (rw
                    (
                      prefixed "nsu=" uri t.written,
                      remove_prefix-append "nsu=" (append uri (";" ∷ t.written)),
                    )
                    (ap some (append_assoc a (";" ∷ b) (";" ∷ t.written))))
                  (split_at-append ";" a tail l))
            ∙ e)),
    )
