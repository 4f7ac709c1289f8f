-- ===== src/Struct/Collection/Getters.antt =====
-- src/struct/collection.c: the getters of the header, on a handle that is not null.
use vexspoke.Base.{ℕ, List}
use vexspoke.Struct.Exhaustion.{reset}
use vexspoke.Struct.Collection.{Collection}

-- Collection_length.
abbrev pub length : Collection → ℕ
length c = c.active_count

-- Collection_capacity.
abbrev pub capacity : Collection → ℕ
capacity c = c.capacity

-- Collection_elementClassId.
abbrev pub element_class_id : Collection → ℕ
element_class_id c = c.element_class

-- Collection_stride.
abbrev pub stride : Collection → ℕ
stride c = c.stride

-- Collection_exhaustionCount.
abbrev pub exhaustion_count : Collection → ℕ
exhaustion_count c = c.exhaustion.count

-- Collection_head.
abbrev pub head : Collection → ℕ
head c = c.head

-- Collection_dataBuffer.
abbrev pub data_buffer : Collection → List ℕ
data_buffer c = c.data_buffer

-- Collection_type.
abbrev pub type_id : Collection → ℕ
type_id c = c.type_id

-- Collection_keyClassId.
abbrev pub key_class_id : Collection → ℕ
key_class_id c = element_class_id c

-- Collection_valClassId.
abbrev pub val_class_id : Collection → ℕ
val_class_id c = stride c

-- Collection_resetExhaustion.
abbrev pub reset_exhaustion : Collection → Collection
reset_exhaustion c = record c { exhaustion = reset c.exhaustion }
