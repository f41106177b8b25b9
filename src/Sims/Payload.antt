-- ===== src/Sims/Payload.antt =====
-- What both simulators serve: their products, orders and users, and the changes to a posted object.
use mirror_agent.Base.{[], ◌∷◌, Bytes, codes, if◌then◌else◌}
use mirror_agent.Go.Strings.{equal}
use mirror_agent.Go.Header.{Header}
use mirror_agent.Sims.Http.{
  Value, text, literal, object, Values, no_more, next, Fields, no_fields, field,
}

abbrev pub users_prefix : Bytes
users_prefix = codes "/api/v1/users/"

abbrev product : Bytes → Bytes → Bytes → Bytes → Value
product id name price category = object (
    field (codes "id") (text id) (
      field (codes "name") (text name) (
        field (codes "price") (literal price)
          (field (codes "category") (text category) no_fields))))

abbrev pub products : Values
products =
    next
      (product (codes "prod-001") (codes "API Gateway Standard") (codes "99.99") (codes "platform"))
      (next
        (product (codes "prod-002") (codes "API Gateway Enterprise") (codes "299.99")
          (codes "platform"))
        (next
          (product (codes "prod-003") (codes "Analytics Add-on") (codes "49.99") (codes "addon"))
          no_more))

abbrev order : Bytes → Bytes → Bytes → Value
order id status amount = object (
    field (codes "id") (text id)
      (field (codes "status") (text status) (field (codes "amount") (literal amount) no_fields)))

-- body[k] = v; the order of an object's fields is that of encoding/json, by name.
abbrev pub set_field : Fields → Bytes → Value → Fields
set_field no_fields k v = field k v no_fields
set_field (field j w fs) k v =
    let rest = set_field fs k v in if equal j k then field j v fs else field j w rest

-- The answer to a GET of the orders.
abbrev pub orders : Values
orders =
    next (order (codes "ord-001") (codes "shipped") (codes "99.99"))
      (next (order (codes "ord-002") (codes "pending") (codes "149.99")) no_more)

abbrev pub or_unknown : Bytes → Bytes
or_unknown [] = codes "unknown"
or_unknown (c ∷ s) = c ∷ s

-- The headers that echoHandler shows: the first value under each name.
abbrev pub first_values : Header → Fields
first_values [] = no_fields
first_values ((k, []) ∷ h) = first_values h
first_values ((k, v ∷ vs) ∷ h) = field k (text v) (first_values h)
