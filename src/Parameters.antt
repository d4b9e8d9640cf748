-- ===== src/Parameters.antt =====
-- modules/parameter_server/src/parameter_server.cpp: the store of the parameters, the handler of the
-- service and the command setParam.
pub mod Client
use dls.Common.{
  ◌≡◌, Bool, true, false, ◌&&◌, Option, none, some, List, [], ◌∷◌, if◌then◌else◌, Text, text_eq,
  text_beq_iff, ◌==◌, arith, Option-cases, inl, inr,
}
use dls.Common.Map.{find, emplace, find-emplace_new, emplace_old}

-- dls2_interface::msg::ParamServer, as a request and as a response
pub record ParamServer : Type 0 where
  pub key : Text
  pub value : Text
  pub rw : Bool

abbrev pub ParamStore : Type 0
ParamStore = List (Text × Text)

-- the value at the iterator `param`; `none` is end()
abbrev pub response : Option Text → Text × Bool
response none = ([], false)
response (some v) = (v, true)

-- the handler of the constructor: the store after the request, and the value and rw of the response
unfoldable pub handle : ParamServer → ParamStore → ParamStore × (Text × Bool)
unfolding find emplace
handle request store =
    let param = find request.key store in
    let written = emplace request.key request.value store in
    if request.rw then (written, response (find request.key written)) else (store, response param)

-- the command setParam
unfoldable pub set_param : Text → Text → ParamStore → ParamStore
unfolding emplace
set_param key data_ store = emplace key data_ store

-- Requests one after another.
unfoldable pub handle_all : List ParamServer → ParamStore → ParamStore
unfolding handle
handle_all [] store = store
handle_all (r ∷ rs) store = handle_all rs (handle r store).0

-- The value that the first of some requests to write the key carries.
abbrev pub first_written : Text → List ParamServer → Option Text
first_written key [] = none
first_written key (r ∷ rs) =
    let rest = first_written key rs in if r.rw && r.key == key then some r.value else rest

find-handle :
    (key : Text) (r : ParamServer) (store : ParamStore)
    → find key (handle r store).0 ≡ elim (find key store) [
      | none ↦ if r.rw && r.key == key then some r.value else none
      | some v ↦ some v
    ]
unfolding handle
find-handle key r store = elim (Option-cases (find r.key store)) [
  | inl absent ↦
      ground (arith, find-emplace_new r.key key r.value store absent, text_beq_iff r.key key)
  | inr (v, present) ↦
      ground (arith, emplace_old r.key r.value v store present, text_beq_iff r.key key)
]

-- After any requests a parameter that the store had keeps its value, and a new one has the value of
-- the first request that wrote it: later writes change nothing.
pub find-handle_all :
    (key : Text) (rs : List ParamServer) (store : ParamStore)
    → find key (handle_all rs store)
      ≡ elim (find key store) [ none ↦ first_written key rs | some v ↦ some v ]
unfolding handle_all
find-handle_all key [] store = ground arith
find-handle_all key (r ∷ rs) store =
    ground (arith, find-handle key r store, find-handle_all key rs (handle r store).0)

-- The response to a request carries the value that the store has after it, or the empty text and a
-- cleared mark where it has none.
pub handle-response :
    (r : ParamServer) (store : ParamStore)
    → (handle r store).1 ≡ response (find r.key (handle r store).0)
unfolding handle
handle-response r store = ground arith
