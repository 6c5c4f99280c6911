-- ===== src/Simulator/Customers.antt =====
-- cinqs/network/Customer.h and Customer.cpp: what a customer carries through the network. A customer
-- is known by its id, and the network's customers are a map from ids. Times are the source's
-- `double`; their type and operations are parameters.
use vexjine.Common.{ℕ, Bool, Option, some, leb, put}

pub record Customer (Time : Type 0) : Type 0 where
  pub class_of : ℕ
  pub priority : ℕ
  pub arrival_time : Time
  pub service_demand : Time
  pub queue_insertion_time : Time
  pub location : Option ℕ
  pub finished : Bool

abbrev pub Customers : Type 0 → Type 0
Customers Time = ℕ → Customer Time

module _ {Time : Type 0} where
  unfoldable pub set_queue_insertion_time : Customers Time → ℕ → Time → Customers Time
  set_queue_insertion_time cs c t = put cs c (record (cs c) { queue_insertion_time = t })

  unfoldable pub set_service_demand : Customers Time → ℕ → Time → Customers Time
  set_service_demand cs c t = put cs c (record (cs c) { service_demand = t })

  unfoldable pub set_location : Customers Time → ℕ → ℕ → Customers Time
  set_location cs c n = put cs c (record (cs c) { location = some n })

  -- The order of an ordered queue: by class, equal ones included.
  unfoldable pub smaller_than : Customers Time → ℕ → ℕ → Bool
  smaller_than cs c e = leb (cs c).class_of (cs e).class_of
