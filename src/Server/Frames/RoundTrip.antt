-- ===== src/Server/Frames/RoundTrip.antt =====
-- What a consumer reads of a frame.
use Prim.Native.String.{len}
use labeler_relay.Prelude.{
  ◌≤◌, ◌≡◌, refl, sym, ap, ◌∙◌, subst, String, Bool, true, false, List, [], ◌∷◌, ◌++◌, append_assoc,
  append-nil, str_eq, eq_iff, ok, ok_injective, bind_ok, arith,
}
use labeler_relay.Store.Events.{Bytes}
use labeler_relay.Cbor.{Cbg, writes, string_item, text, int_item, read_fields}
use labeler_relay.Cbor.Reading.{
  Fits, text-ok, read_int-int_item, unmarshal_map-header, writes-append,
}
use labeler_relay.Server.Frames.{
  FrameHeader, ErrorFrameBody, op_message, op_error, field_count, type_entry, marshal_header,
  header_field, no_header, unmarshal_header, marshal_error, error_field, no_error, unmarshal_error,
  write_message, write_error,
}

module _ (c : Cbg) where
  -- The entry of the type, by whether the type is empty.
  abbrev entry_of : Bool → String → List Bytes
  entry_of true t = []
  entry_of false t = string_item c "t" ∷ string_item c t ∷ []

  type_entry-ok :
      (empty : Bool) (t : String) (entry : List Bytes)
      → str_eq t "" ≡ empty
      → type_entry c empty t ≡ ok entry
      → (entry ≡ entry_of empty t) × (len t ≤ c.max_length)
  type_entry-ok true t entry q h = (
    sym (ok_injective h),
    subst (λ s. len s ≤ c.max_length) (sym ((eq_iff t "").0 q)) (omega arith),
  )
  type_entry-ok false t entry q h =
      let (key, h1, k1) = bind_ok (text c c.max_length "t" "t") _ entry h in
      let (value, h2, k2) = bind_ok (text c c.max_length "t.T" t) _ entry k1 in
      let (key_fits, key_is) = text-ok c c.max_length "t" "t" key h1 in
      let (fits, value_is) = text-ok c c.max_length "t.T" t value h2 in
      (
        sym (ok_injective k2)
            ∙ ap (λ w. w ∷ value ∷ []) key_is
            ∙ ap (λ w. string_item c "t" ∷ w ∷ []) value_is,
        fits,
      )

  abbrev written : Bool → FrameHeader → List Bytes
  written empty h = entry_of empty h.t ++ string_item c "op" ∷ int_item c h.op ∷ []

  marshal_header-ok :
      (h : FrameHeader) (b : Bytes)
      → marshal_header c h ≡ ok b
      → (b
          ≡ c.encode_header 5 (field_count c (str_eq h.t ""))
            ++ writes (written (str_eq h.t "") h) [])
        × (len h.t ≤ c.max_length)
  unfolding marshal_header
  marshal_header-ok h b e =
      let empty = str_eq h.t "" in
      let head = c.encode_header 5 (field_count c empty) in
      let (entry, h1, k1) = bind_ok (type_entry c empty h.t) _ b e in
      let (key, h2, k2) = bind_ok (text c c.max_length "op" "op") _ b k1 in
      let (entry_is, fits) = type_entry-ok empty h.t entry refl h1 in
      let (key_fits, key_is) = text-ok c c.max_length "op" "op" key h2 in
      (
        sym (ok_injective k2)
            ∙ ap (λ w. head ++ writes (w ++ key ∷ int_item c h.op ∷ []) []) entry_is
            ∙ ap (λ w. head ++ writes (entry_of empty h.t ++ w ∷ int_item c h.op ∷ []) []) key_is,
        fits,
      )

  read_header-fields :
      (h : FrameHeader) (empty : Bool) (rest : Bytes)
      → str_eq h.t "" ≡ empty
      → len h.t ≤ c.max_length
      → Fits h.op
      → read_fields c
          (header_field c)
          2
          c.max_length
          (field_count c empty)
          (no_header c)
          (writes (written empty h) rest)
        ≡ ok (h, rest)
  unfolding header_field read_fields
  read_header-fields h true rest q t_fits op_fits =
      rw
        (
          c.read_written_name 2 c.max_length "op" _ (omega arith) (omega (arith, c.room)),
          read_int-int_item c h.op _ op_fits,
        )
        (ap (λ t. ok (record h { t = t }, rest)) (sym ((eq_iff h.t "").0 q)))
  read_header-fields h false rest q t_fits op_fits =
      rw
        (
          c.read_written_name 2 c.max_length "t" _ (omega arith) (omega (arith, c.room)),
          c.read_written_string c.max_length h.t _ t_fits,
          c.read_written_name 2 c.max_length "op" _ (omega arith) (omega (arith, c.room)),
          read_int-int_item c h.op _ op_fits,
        )
        refl

  field_count-small : (empty : Bool) → field_count c empty ≤ 11
  field_count-small true = omega arith
  field_count-small false = omega arith

  -- Reading the header back leaves what follows it.
  header-round_trip :
      (h : FrameHeader) (b rest : Bytes)
      → marshal_header c h ≡ ok b
      → Fits h.op
      → unmarshal_header c (b ++ rest) ≡ ok (h, rest)
  unfolding unmarshal_header
  header-round_trip h b rest e fits =
      let (whole, t_fits) = marshal_header-ok h b e in
      let empty = str_eq h.t "" in
      let head = c.encode_header 5 (field_count c empty) in
      subst (λ w. unmarshal_header c w ≡ ok (h, rest))
        (sym (
          ap (λ w. w ++ rest) whole
          ∙ append_assoc head (writes (written empty h) []) rest
          ∙ ap (λ w. head ++ w) (writes-append (written empty h) [] rest)))
        (unmarshal_map-header c (header_field c) 2 c.max_length (field_count c empty) (no_header c)
          h (writes (written empty h) rest) rest (field_count-small empty)
          (read_header-fields h empty rest refl t_fits fits))

  -- A consumer reads from a message frame its header, with the operation 1 and the type that was given,
  -- and then exactly the bytes of the body, as they were stored.
  pub write_message-read :
      (msg_type : String) (body b : Bytes)
      → write_message c msg_type body ≡ ok b
      → unmarshal_header c b ≡ ok (record { t = msg_type; op = op_message }, body)
  unfolding write_message
  write_message-read msg_type body b e =
      let h : FrameHeader = record { t = msg_type; op = op_message } in
      let (head, h1, k1) = bind_ok (marshal_header c h) _ b e in
      subst (λ w. unmarshal_header c w ≡ ok (h, body)) (ok_injective k1)
        (header-round_trip h head body h1 (omega arith))

  abbrev error_fields : ErrorFrameBody → List Bytes
  error_fields e =
      string_item c "error"
      ∷ string_item c e.error
      ∷ string_item c "message"
      ∷ string_item c e.message
      ∷ []

  marshal_error-ok :
      (e : ErrorFrameBody) (b : Bytes)
      → marshal_error c e ≡ ok b
      → (b ≡ 162 ∷ writes (error_fields e) [])
        × (len e.error ≤ c.max_length)
        × (len e.message ≤ c.max_length)
  unfolding marshal_error
  marshal_error-ok e b h =
      let (k1, h1, r1) = bind_ok (text c c.max_length "error" "error") _ b h in
      let (v1, h2, r2) = bind_ok (text c c.max_length "t.Error" e.error) _ b r1 in
      let (k2, h3, r3) = bind_ok (text c c.max_length "message" "message") _ b r2 in
      let (v2, h4, r4) = bind_ok (text c c.max_length "t.Message" e.message) _ b r3 in
      let (f1, is1) = text-ok c c.max_length "error" "error" k1 h1 in
      let (f2, is2) = text-ok c c.max_length "t.Error" e.error v1 h2 in
      let (f3, is3) = text-ok c c.max_length "message" "message" k2 h3 in
      let (f4, is4) = text-ok c c.max_length "t.Message" e.message v2 h4 in
      (
        sym (ok_injective r4)
            ∙ ap (λ w. 162 ∷ writes (w ∷ v1 ∷ k2 ∷ v2 ∷ []) []) is1
            ∙ ap (λ w. 162 ∷ writes (string_item c "error" ∷ w ∷ k2 ∷ v2 ∷ []) []) is2
            ∙ ap
                (λ w. 162 ∷ writes (string_item c "error" ∷ string_item c e.error ∷ w ∷ v2 ∷ []) [])
                is3
            ∙ ap
                (λ w.
                  162
                  ∷ writes
                      (string_item c "error"
                        ∷ string_item c e.error
                        ∷ string_item c "message"
                        ∷ w
                        ∷ [])
                      [])
                is4,
        f2,
        f4,
      )

  read_error-fields :
      (e : ErrorFrameBody) (rest : Bytes)
      → len e.error ≤ c.max_length
      → len e.message ≤ c.max_length
      → read_fields c (error_field c) 7 c.max_length 2 (no_error c) (writes (error_fields e) rest)
        ≡ ok (e, rest)
  unfolding error_field read_fields
  read_error-fields e rest error_fits message_fits =
      rw
        (
          c.read_written_name 7 c.max_length "error" _ (omega arith) (omega (arith, c.room)),
          c.read_written_string c.max_length e.error _ error_fits,
          c.read_written_name 7 c.max_length "message" _ (omega arith) (omega (arith, c.room)),
          c.read_written_string c.max_length e.message _ message_fits,
        )
        refl

  error-round_trip :
      (e : ErrorFrameBody) (b rest : Bytes)
      → marshal_error c e ≡ ok b
      → unmarshal_error c (b ++ rest) ≡ ok (e, rest)
  unfolding unmarshal_error
  error-round_trip e b rest h =
      let (whole, error_fits, message_fits) = marshal_error-ok e b h in
      subst (λ w. unmarshal_error c w ≡ ok (e, rest))
        (sym (
          ap (λ w. w ++ rest) whole
          ∙ ap (λ w. 162 ∷ w) (writes-append (error_fields e) [] rest)
          ∙ ap (λ w. w ++ writes (error_fields e) rest)
              (sym (c.small_header 5 2 (omega arith) (omega arith)))))
        (unmarshal_map-header c (error_field c) 7 c.max_length 2 (no_error c) e
          (writes (error_fields e) rest) rest (omega arith)
          (read_error-fields e rest error_fits message_fits))

  -- A consumer reads from an error frame a header without a type and with the operation -1, and then the
  -- name and the text of the error, with nothing left over.
  pub write_error-read :
      (name message : String) (b : Bytes)
      → write_error c name message ≡ ok b
      → (body : Bytes) × (unmarshal_header c b ≡ ok (record { t = ""; op = op_error }, body))
        × (unmarshal_error c body ≡ ok (record { error = name; message = message }, []))
  unfolding write_error
  write_error-read name message b e =
      let h : FrameHeader = record { t = ""; op = op_error } in
      let m : ErrorFrameBody = record { error = name; message = message } in
      let (head, h1, k1) = bind_ok (marshal_header c h) _ b e in
      let (body, h2, k2) = bind_ok (marshal_error c m) _ b k1 in
      (
        body,
        subst (λ w. unmarshal_header c w ≡ ok (h, body)) (ok_injective k2)
            (header-round_trip h head body h1 (omega arith)),
        subst (λ w. unmarshal_error c w ≡ ok (m, [])) (append-nil body)
            (error-round_trip m body [] h2),
      )
