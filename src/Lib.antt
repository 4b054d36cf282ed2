-- ===== src/Lib.antt =====
-- IOKitUser: the library with which programs in user space talk to the I/O Kit of the kernel.
--
-- KextVersion.antt models kext.subproj/OSKextVersion.c, the version numbers of kernel extensions.
-- parse_version_string is OSKextParseVersionString: each of its labels (minor_version, revision,
-- release_state, finish) is a function, a loop over digits is scan or scan_level, which recur on the
-- digits that may still come, and -1 is negsuc 0. KextVersion/Print.antt has version_get_string,
-- OSKextVersionGetString, which writes into the bytes of the caller's buffer; snprintf, strlcpy and
-- strlcat are written out in Prelude/Memory.antt as writes of bytes. kOSKextVersionMaxLength is
-- declared outside the repository and is a parameter. A decimal text is made with ten rounds, since a
-- uint32_t has at most ten digits.
--
-- DataQueue.antt models IODataQueueClient.c, a queue of byte strings in memory shared with the kernel.
-- A Queue has the fields of IODataQueueMemory, its bytes and the port of the appendix. dequeue, peek,
-- enqueue and set_notification_port are the functions of these names; the UInt32 sums wrap around.
-- DataQueue/Contents.antt says which entries the bytes hold. The size of an entry's header and the
-- kernel's answer to a message are parameters. The two sides run one after another: a head that moves
-- while an entry is written is not modelled, nor is a wait for a message.
--
-- Kext/Identifiers.antt models a part of kext.subproj/OSKext.c, the dictionary of kexts by bundle
-- identifier: record_kext and remove_kext are __OSKextRecordKextInIdentifierDict and
-- __OSKextRemoveKextFromIdentifierDict, and the requests are OSKextGetKextWithIdentifier and its
-- siblings, from the point where the kexts with the identifier are realized. A Library holds what
-- these functions read of the kexts; its is_loaded is what OSKextIsLoaded answers at the request. The
-- log messages, and a failure to allocate, are left out.
--
-- Kext/LoadList.antt models the lists of dependencies of the same file: add_dependencies is
-- __OSKextAddDependenciesApplierFunction and copy_dependencies_list is __OSKextCopyDependenciesList,
-- which all of OSKextCopyLoadList, OSKextCopyAllDependencies and OSKextCopyIndirectDependencies call.
-- The fuel bounds how deep calls are nested; where a rank falls along each dependency, a fuel above the
-- rank of the root is enough, since each call lowers both. The depth is far below 2^32 wherever the
-- calls end. What OSKextResolveDependencies answers to these functions is an argument.
--
-- Kext/LoadInfo.antt models the load information that the kexts of that file keep about dependencies, as
-- a function from kexts: clear_has_all_dependencies is __OSKextClearHasAllDependenciesOnKext,
-- flush_dependencies is OSKextFlushDependencies of one kext, and flush_all that of all. A nested call to
-- clear finds one flag less, so that a fuel above the number of kexts is enough.
--
-- Kext/Resolve.antt models __OSKextResolveDependencies: resolve is the part up to the loop stack, enter
-- that from the load information to the recursive calls, with collect for the loop over the declared
-- dependencies and resolve_each for that of the recursive calls, conclude and judge are the tests behind
-- it, and finish is the label. A Run is what the calls share: the load information, resolvedSet in the
-- order of insertion, and loopStack. resolve_dependencies is OSKextResolveDependencies of one kext with the
-- check of its load list. A Rules holds what the code reads and does not change: the dictionaries of the
-- kexts, and the answers of OSKextIsInterface, OSKextDeclaresExecutable, __OSKextIsValid and the like,
-- which hold through a run. The order of declared dependencies is the one in which
-- CFDictionaryGetKeysAndValues gives them. Calls are nested no deeper than there are kexts, since each is
-- for a kext that is not on the loop stack. Diagnostics, log messages, failures to allocate, and what only
-- an embedded system does are left out, and so is OSKextResolveDependencies of all kexts at once.
--
-- FatUtil.antt models kext.subproj/fat_util.c, the iterator over the architectures of a file that is in
-- memory: for_data is fat_iterator_for_data, next_arch is fat_iterator_next_arch, and find_arch is
-- fat_iterator_find_arch, each with its helpers. The sizes of the structures, where their fields stand,
-- the magic numbers and NXFindBestFatArch are the system's and are parameters; the theorems need that the
-- fields lie inside the structures, and that the function gives one of the headers it is handed; that on
-- find_arch needs a table of fewer than 2^32 bytes, all of whose entries are inside the file. The outer
-- option of a result is none exactly for a read outside the file, or outside the copy of the table that
-- find_arch makes, whose size has 32 bits. all_arches is a caller's loop; a call more
-- than there are architectures ends it. Opening and unmapping a file, and a failure to allocate, are not
-- modelled.
--
-- MachoUtil.antt models a part of kext.subproj/macho_util.c: scan_load_commands is
-- macho_scan_load_commands for any callback, with user_data as a state, and find_uuid is macho_find_uuid.
-- The magic numbers, the sizes and the fields of the structures are parameters. The loop has the number of
-- commands that are left, so that it ends. The searches for symbols and sections, and the change of a
-- file's byte order, are not modelled.
--
-- Xml/Text.antt, Xml/Data.antt and Xml/Number.antt model what stands between the tags of a property list.
-- add_escaped is the loop of DoCFSerializeString and of DoCFSerializeKey, serialize_data that of
-- DoCFSerializeData, all of IOCFSerialize.c; get_string is getString and get_cf_encoded_data is
-- getCFEncodedData of IOCFUnserialize.tab.c. An Input holds the bytes of the parser's buffer from its
-- index on, and the line; since the index is an int, a buffer is shorter than 2^31 bytes. unescape has the length of the text as fuel, of which each round takes at
-- least a byte. number_text is the text that DoCFSerializeNumber writes between its tags, and get_number
-- is getNumber.
--
-- Xml/Objects.antt and Xml/Serialize.antt model the rest of IOCFSerialize.c. An object is a tree with an
-- address at each node but Booleans, since the code knows objects by their pointers; a container lists
-- what CoreFoundation hands out for it. scan is DoIdrefScan, serialize is DoCFSerialize, whose functions
-- for the types share the frame serialize_as, add_start_tag, add_end_tag and previously_serialized are the
-- functions of these names, and iocf_serialize is IOCFSerialize. A Writer is an IOCFSerializeState. A
-- string is its UTF-8 bytes; what is done where it cannot be converted is left out.
--
-- Xml/Tag.antt, Xml/Lexer.antt, Xml/Tables.antt, Xml/Build.antt and Xml/Unserialize.antt model the rest of
-- IOCFUnserialize.tab.c. get_tag is getTag and yylex is yylex, with the length of the buffer as fuel for
-- its jumps to top, each of which is behind a byte. The tables are those of the file; step is what
-- IOCFUnserializeparse does from one state to the next, perform has the actions of the rules, and run has the
-- number of steps as fuel. The stack of states ends at YYMAXDEPTH. A Cell is an object_t, a Parser is a
-- parser_state_t. The memory of objects that are freed and used again is not modelled: each object is new, and the
-- code sets each field of it that it reads. Xml/Values.antt has the CoreFoundation objects that are made,
-- known by the calls that made them. Xml/Strtol.antt has strtol and strtoul of the C library, and Xml/View.antt
-- says what is to come back for an object. The bytes behind the end of a buffer are read as zeros.
--
-- Prelude.antt passes on what the modules share; Prelude/Memory.antt has memory as a list of bytes.
mod Prelude
pub mod KextVersion
pub mod DataQueue
pub mod Kext
pub mod FatUtil
pub mod MachoUtil
pub mod Xml
