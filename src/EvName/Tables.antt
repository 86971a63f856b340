-- ===== src/EvName/Tables.antt =====
-- ev_name/eventname_enumer.go: the generated tables, as the file spells them.
use goesl.Base.{ℕ, List, [], ◌∷◌, ◌++◌, Bytes, codes}

-- `_EventNameName` and `_EventNameLowerName`, cut where a line ends.
unfoldable pub event_name_name : Bytes
event_name_name =
    codes "CUSTOMCLONECHANNEL_CREATECHANNEL_DESTROYCHANNEL_STATECHANNEL_CALLSTATE"
    ++ (codes "CHANNEL_ANSWERCHANNEL_HANGUPCHANNEL_HANGUP_COMPLETECHANNEL_EXECUTECHAN"
        ++ (codes "NEL_EXECUTE_COMPLETECHANNEL_HOLDCHANNEL_UNHOLDCHANNEL_BRIDGECHANNEL_UN"
            ++ (codes "BRIDGECHANNEL_PROGRESSCHANNEL_PROGRESS_MEDIACHANNEL_OUTGOINGCHANNEL_PA"
                ++ (codes "RKCHANNEL_UNPARKCHANNEL_APPLICATIONCHANNEL_ORIGINATECHANNEL_UUIDAPILOG"
                    ++ (codes
                          "INBOUND_CHANOUTBOUND_CHANSTARTUPSHUTDOWNPUBLISHUNPUBLISHTALKNOTALKSESS"
                        ++ (codes
                              "ION_CRASHMODULE_LOADMODULE_UNLOADDTMFMESSAGEPRESENCE_INNOTIFY_INPRESEN"
                            ++ (codes
                                  "CE_OUTPRESENCE_PROBEMESSAGE_WAITINGMESSAGE_QUERYROSTERCODECBACKGROUND_"
                                ++ (codes
                                      "JOBDETECTED_SPEECHDETECTED_TONEPRIVATE_COMMANDHEARTBEATTRAPADD_SCHEDUL"
                                    ++ (codes
                                          "EDEL_SCHEDULEEXE_SCHEDULERE_SCHEDULERELOADXMLNOTIFYPHONE_FEATUREPHONE_"
                                        ++ (codes
                                              "FEATURE_SUBSCRIBESEND_MESSAGERECV_MESSAGEREQUEST_PARAMSCHANNEL_DATAGEN"
                                            ++ (codes
                                                  "ERALCOMMANDSESSION_HEARTBEATCLIENT_DISCONNECTEDSERVER_DISCONNECTEDSEND"
                                                ++ (codes
                                                      "_INFORECV_INFORECV_RTCP_MESSAGECALL_SECURENATRECORD_STARTRECORD_STOPPL"
                                                    ++ (codes
                                                          "AYBACK_STARTPLAYBACK_STOPCALL_UPDATEFAILURESOCKET_DATAMEDIA_BUG_STARTM"
                                                        ++ (codes
                                                            "EDIA_BUG_STOPCONFERENCE_DATA_QUERYCONFERENCE_DATACALL_SETUP_REQCALL_SE"
                                                            ++ (codes
                                                            "TUP_RESULTCALL_DETAILDEVICE_STATEALL")))))))))))))))

unfoldable pub event_name_lower_name : Bytes
event_name_lower_name =
    codes "customclonechannel_createchannel_destroychannel_statechannel_callstate"
    ++ (codes "channel_answerchannel_hangupchannel_hangup_completechannel_executechan"
        ++ (codes "nel_execute_completechannel_holdchannel_unholdchannel_bridgechannel_un"
            ++ (codes "bridgechannel_progresschannel_progress_mediachannel_outgoingchannel_pa"
                ++ (codes "rkchannel_unparkchannel_applicationchannel_originatechannel_uuidapilog"
                    ++ (codes
                          "inbound_chanoutbound_chanstartupshutdownpublishunpublishtalknotalksess"
                        ++ (codes
                              "ion_crashmodule_loadmodule_unloaddtmfmessagepresence_innotify_inpresen"
                            ++ (codes
                                  "ce_outpresence_probemessage_waitingmessage_queryrostercodecbackground_"
                                ++ (codes
                                      "jobdetected_speechdetected_toneprivate_commandheartbeattrapadd_schedul"
                                    ++ (codes
                                          "edel_scheduleexe_schedulere_schedulereloadxmlnotifyphone_featurephone_"
                                        ++ (codes
                                              "feature_subscribesend_messagerecv_messagerequest_paramschannel_datagen"
                                            ++ (codes
                                                  "eralcommandsession_heartbeatclient_disconnectedserver_disconnectedsend"
                                                ++ (codes
                                                      "_inforecv_inforecv_rtcp_messagecall_securenatrecord_startrecord_stoppl"
                                                    ++ (codes
                                                          "ayback_startplayback_stopcall_updatefailuresocket_datamedia_bug_startm"
                                                        ++ (codes
                                                            "edia_bug_stopconference_data_queryconference_datacall_setup_reqcall_se"
                                                            ++ (codes
                                                            "tup_resultcall_detaildevice_stateall")))))))))))))))

unfoldable pub event_name_index : List ℕ
event_name_index =
    0 ∷ 6 ∷ 11 ∷ 25 ∷ 40 ∷ 53 ∷ 70 ∷ 84 ∷ 98 ∷ 121 ∷ 136 ∷ 160 ∷ 172 ∷ 186 ∷ 200 ∷ 216 ∷ 232 ∷ 254
    ∷ 270 ∷ 282 ∷ 296 ∷ 315 ∷ 332 ∷ 344 ∷ 347 ∷ 350 ∷ 362 ∷ 375 ∷ 382 ∷ 390 ∷ 397 ∷ 406 ∷ 410 ∷ 416
    ∷ 429 ∷ 440 ∷ 453 ∷ 457 ∷ 464 ∷ 475 ∷ 484 ∷ 496 ∷ 510 ∷ 525 ∷ 538 ∷ 544 ∷ 549 ∷ 563 ∷ 578 ∷ 591
    ∷ 606 ∷ 615 ∷ 619 ∷ 631 ∷ 643 ∷ 655 ∷ 666 ∷ 675 ∷ 681 ∷ 694 ∷ 717 ∷ 729 ∷ 741 ∷ 755 ∷ 767 ∷ 774
    ∷ 781 ∷ 798 ∷ 817 ∷ 836 ∷ 845 ∷ 854 ∷ 871 ∷ 882 ∷ 885 ∷ 897 ∷ 908 ∷ 922 ∷ 935 ∷ 946 ∷ 953 ∷ 964
    ∷ 979 ∷ 993 ∷ 1014 ∷ 1029 ∷ 1043 ∷ 1060 ∷ 1071 ∷ 1083 ∷ 1086 ∷ []
